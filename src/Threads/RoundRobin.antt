-- ===== src/Threads/RoundRobin.antt =====
-- The order of kernel_rs/src/thread.rs on one processor: a queue is served first in, first out.
use agentic_os.Base.{
  ℕ, zero, suc, ◌+◌, ◌≡◌, ◌<◌, refl, ◌∙◌, ap, List, [], ◌∷◌, ◌++◌, Option, none, some, ◌>>=◌,
  get_elem?, set, lt-length, get_elem?-set_self, get_elem?-append_left, Bool, true, false, u64,
  arith,
}
use agentic_os.Threads.{Thread, Cpu, Scheduler, enqueue_new, new_thread, push_back}
use agentic_os.Threads.Schedule.{
  schedule, dispatch, hand_over, resumed, parked, is_exited, switch_from,
}
use agentic_os.Threads.Current.{exit_current, change_current, exit_thread}

-- What happens on one processor while no other steals from it: a tick at a stack pointer, the end of
-- the current thread, a spawn on the queue.
pub data LocalOp : Type 0 where
  ticks : ℕ → LocalOp
  ends : LocalOp
  arrives : ℕ → List ℕ → ℕ → LocalOp

unfoldable pub local_step : ℕ → Scheduler → LocalOp → Option Scheduler
local_step me s (LocalOp.ticks rsp) = schedule s me rsp >>= λ r. some r.0
local_step me s LocalOp.ends = exit_current s me
local_step me s (LocalOp.arrives base pushed space) =
    enqueue_new s me base pushed space >>= λ r. some r.0

unfoldable pub local_run : ℕ → Scheduler → List LocalOp → Option Scheduler
unfolding local_step
local_run me s [] = some s
local_run me s (op ∷ ops) = local_step me s op >>= λ s'. local_run me s' ops

abbrev pub tick_count : List LocalOp → ℕ
tick_count [] = 0
tick_count (LocalOp.ticks rsp ∷ ops) = suc (tick_count ops)
tick_count (LocalOp.ends ∷ ops) = tick_count ops
tick_count (LocalOp.arrives base pushed space ∷ ops) = tick_count ops

-- The processor has a current thread, and its queue holds the thread at the position.
unfoldable pub Waits : ℕ → Thread → ℕ → Scheduler → Type 0
Waits me w i s =
    (c : Cpu) × (t : Thread) × (q : List Thread) × (get_elem? s.cpus me ≡ some c)
    × (c.current ≡ some t)
    × (c.queue ≡ some q)
    × (get_elem? q i ≡ some w)

-- The thread is the processor's current one.
unfoldable pub Runs : ℕ → Thread → Scheduler → Type 0
Runs me t s = (c : Cpu) × (get_elem? s.cpus me ≡ some c) × (c.current ≡ some t)

keeps-append :
    (ts us : List Thread) (i : ℕ) (w : Thread)
    → get_elem? ts i ≡ some w
    → get_elem? (ts ++ us) i ≡ some w
keeps-append ts us i w h = get_elem?-append_left ts us i (lt-length ts i h) ∙ h

-- The second queue starts with the first.
abbrev Continues : List Thread → List Thread → Type 0
Continues q q' = (i : ℕ) (w : Thread) → get_elem? q i ≡ some w → get_elem? q' i ≡ some w

-- A processor that runs the thread, with at least the queue.
abbrev Serves : ℕ → Thread → List Thread → Scheduler → Type 0
Serves me u q s =
    (c : Cpu) × (q' : List Thread) × (get_elem? s.cpus me ≡ some c)
    × (c.current ≡ some u)
    × (c.queue ≡ some q')
    × Continues q q'

module _ (me : ℕ) (s : Scheduler) (c : Cpu) (e : get_elem? s.cpus me ≡ some c) where
  put_self : (c' : Cpu) → get_elem? (set s.cpus me c') me ≡ some c'
  put_self c' = get_elem?-set_self s.cpus me c' (lt-length s.cpus me e)

  hand_over-Serves :
      (rsp : ℕ) (t u : Thread) (q : List Thread) (exited : Bool)
      → Serves me (resumed u) q (record s { cpus = (hand_over s.cpus me rsp t (u ∷ q) exited).0 })
  unfolding hand_over
  hand_over-Serves rsp t u q false =
      let c' : Cpu = record {
        queue = some (q ++ parked rsp t ∷ []);
        current = some (resumed u);
        zombie = none;
      } in
      (c', q ++ parked rsp t ∷ [], put_self c', refl, refl, keeps-append q (parked rsp t ∷ []))
  hand_over-Serves rsp t u q true =
      let c' : Cpu = record {
        queue = some q;
        current = some (resumed u);
        zombie = some (parked rsp t);
      } in
      (c', q, put_self c', refl, refl, λ i w h. h)

  switched :
      (rsp : ℕ) (t u : Thread) (q : List Thread) (exited : Bool)
      → (hand_over s.cpus me rsp t (u ∷ q) exited).1 ≡ some (switch_from t u)
  unfolding hand_over
  switched rsp t u q true = refl
  switched rsp t u q false = refl

  ticks-Serves :
      (rsp : ℕ) (t u : Thread) (q : List Thread)
      → c.current ≡ some t
      → c.queue ≡ some (u ∷ q)
      → (s' : Scheduler) × (schedule s me rsp ≡ some (s', some (switch_from t u)))
        × Serves me (resumed u) q s'
  unfolding schedule dispatch
  ticks-Serves rsp t u q ec eq = (
    record s { cpus = (hand_over s.cpus me rsp t (u ∷ q) (is_exited t.state)).0 },
    rw e (rw eq (rw ec (rw (switched rsp t u q (is_exited t.state)) refl))),
    hand_over-Serves rsp t u q (is_exited t.state),
  )

module _ (me : ℕ) (w : Thread) where
  tick-Runs :
      (s : Scheduler) (rsp : ℕ)
      → Waits me w 0 s
      → (out : Thread) × (s' : Scheduler) × (schedule s me rsp
          ≡ some (s', some (switch_from out w)))
        × Runs me (resumed w) s'
  unfolding Waits Runs
  tick-Runs s rsp (c, t, [], e, ec, eq, h) = cc
  tick-Runs s rsp (c, t, u ∷ q, e, ec, eq, h) =
      let (s', st, (c', q', e', ec', eq', n)) = ticks-Serves me s c e rsp t u q ec eq in
      let same : u ≡ w = cc in
      (
        t,
        s',
        st ∙ ap (λ x. some (s', some (switch_from t x))) same,
        (c', e', ec' ∙ ap (λ x. some (resumed x)) same),
      )

  tick-Waits :
      (s : Scheduler) (rsp i : ℕ)
      → Waits me w (suc i) s
      → (s' : Scheduler) × (local_step me s (LocalOp.ticks rsp) ≡ some s') × Waits me w i s'
  unfolding Waits local_step
  tick-Waits s rsp i (c, t, [], e, ec, eq, h) = cc
  tick-Waits s rsp i (c, t, u ∷ q, e, ec, eq, h) =
      let (s', st, (c', q', e', ec', eq', n)) = ticks-Serves me s c e rsp t u q ec eq in
      (s', rw st refl, (c', resumed u, q', e', ec', eq', n i w h))

  ends-Waits :
      (s : Scheduler) (i : ℕ)
      → Waits me w i s
      → (s' : Scheduler) × (local_step me s LocalOp.ends ≡ some s') × Waits me w i s'
  unfolding Waits local_step exit_current change_current
  ends-Waits s i (c, t, q, e, ec, eq, h) =
      let c' : Cpu = record c { current = some (exit_thread t) } in
      (
        record s { cpus = set s.cpus me c' },
        rw e (rw ec refl),
        (c', exit_thread t, q, put_self me s c e c', refl, eq, h),
      )

  arrives-Waits :
      (s : Scheduler) (base : ℕ) (pushed : List ℕ) (space i : ℕ)
      → Waits me w i s
      → (s' : Scheduler) × (local_step me s (LocalOp.arrives base pushed space) ≡ some s')
        × Waits me w i s'
  unfolding Waits local_step enqueue_new push_back
  arrives-Waits s base pushed space i (c, t, q, e, ec, eq, h) =
      let new = new_thread s.next_tid base pushed space in
      let c' : Cpu = record c { queue = some (q ++ new ∷ []) } in
      (
        record { cpus = set s.cpus me c'; next_tid = u64 (s.next_tid + 1) },
        rw e (rw eq refl),
        (c', t, q ++ new ∷ [], put_self me s c e c', ec, refl, keeps-append q (new ∷ []) i w h),
      )

-- A thread at position `i` of a processor's run queue is switched to at exactly the tick `i + 1` of that
-- processor, whatever the stack pointers, whichever threads end in between and however many arrive,
-- as long as no other processor steals from the queue. What is loaded then is what the thread had
-- when it was queued: its stack pointer, page table, I/O bitmap and kernel stack.
pub Waits-Runs :
    (me : ℕ) (w : Thread) (ops : List LocalOp) (s : Scheduler) (i : ℕ)
    → Waits me w i s
    → i < tick_count ops
    → (before after : List LocalOp) × (rsp : ℕ) × (ops ≡ before ++ LocalOp.ticks rsp ∷ after)
      × (tick_count before ≡ i)
      × (s1 s' : Scheduler) × (out : Thread) × (local_run me s before ≡ some s1)
      × (schedule s1 me rsp ≡ some (s', some (switch_from out w)))
      × Runs me (resumed w) s'
unfolding local_run
Waits-Runs me w [] s i h short = absurd (omega arith)
Waits-Runs me w (LocalOp.ticks rsp ∷ ops) s zero h short =
    let (out, s', st, r) = tick-Runs me w s rsp h in
    ([], ops, rsp, refl, refl, s, s', out, refl, st, r)
Waits-Runs me w (LocalOp.ticks rsp ∷ ops) s (suc i) h short =
    let (s1, st, h1) = tick-Waits me w s rsp i h in
    let (before, after, rsp', p, k, m, s', out, r, picked, done) =
      Waits-Runs me w ops s1 i h1 (omega arith) in
    (
      LocalOp.ticks rsp ∷ before,
      after,
      rsp',
      ap (λ l. LocalOp.ticks rsp ∷ l) p,
      ap suc k,
      m,
      s',
      out,
      rw st r,
      picked,
      done,
    )
Waits-Runs me w (LocalOp.ends ∷ ops) s i h short =
    let (s1, st, h1) = ends-Waits me w s i h in
    let (before, after, rsp', p, k, m, s', out, r, picked, done) =
      Waits-Runs me w ops s1 i h1 short in
    (
      LocalOp.ends ∷ before,
      after,
      rsp',
      ap (λ l. LocalOp.ends ∷ l) p,
      k,
      m,
      s',
      out,
      rw st r,
      picked,
      done,
    )
Waits-Runs me w (LocalOp.arrives base pushed space ∷ ops) s i h short =
    let (s1, st, h1) = arrives-Waits me w s base pushed space i h in
    let (before, after, rsp', p, k, m, s', out, r, picked, done) =
      Waits-Runs me w ops s1 i h1 short in
    (
      LocalOp.arrives base pushed space ∷ before,
      after,
      rsp',
      ap (λ l. LocalOp.arrives base pushed space ∷ l) p,
      k,
      m,
      s',
      out,
      rw st r,
      picked,
      done,
    )
