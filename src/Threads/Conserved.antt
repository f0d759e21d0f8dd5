-- ===== src/Threads/Conserved.antt =====
-- `schedule` of kernel_rs/src/thread.rs neither loses nor doubles a thread.
use agentic_os.Base.{
  ℕ, ◌+◌, ◌≡◌, ◌≢◌, refl, sym, ◌∙◌, ap, inl, inr, List, [], ◌∷◌, ◌++◌, Bool, true, false, not, ◌&&◌,
  Option, none, some, ◌==◌, ltb, Bool-cases, Option-cases, bind-some, get_elem?, set,
  get_elem?-set_ne, length, length-set, arith,
}
use agentic_os.Threads.{Thread, Cpu, Scheduler}
use agentic_os.Threads.Schedule.{
  Switch, reap, schedule, dispatch, hand_over, replace_by, steal, stolen_from, pop_last, busiest,
  queue_length, parked, outgoing, resumed, is_exited,
}
use agentic_os.Threads.Current.{queued}
use agentic_os.Threads.System.{
  one, tally, in_slot, in_cpu, in_cpus, occurrences, tally-append, in_cpus-set,
}

tally-pop_last :
    (tid : ℕ) (t : Thread) (ts : List Thread)
    → one tid t + tally tid ts ≡ tally tid (pop_last t ts).0 + one tid (pop_last t ts).1
tally-pop_last tid t [] = omega arith
tally-pop_last tid t (u ∷ us) = omega (arith, tally-pop_last tid u us)

-- The search never ends at the processor itself.
busiest_other :
    (cs : List Cpu) (cpu me : ℕ) (best : Option ℕ) (best_len victim : ℕ)
    → ((v : ℕ) → best ≡ some v → v ≢ me)
    → busiest cs cpu me best best_len ≡ some victim
    → victim ≢ me
unfolding busiest
busiest_other [] cpu me best best_len victim apart e = apart victim e
busiest_other (c ∷ cs) cpu me best best_len victim apart e =
    elim (Bool-cases (not (cpu == me) && ltb best_len (queue_length c))) [
      | inl longer ↦
          let s : busiest (c ∷ cs) cpu me best best_len
              ≡ busiest cs (cpu + 1) me (some cpu) (queue_length c) =
            rw longer refl in
          busiest_other cs (cpu + 1) me (some cpu) (queue_length c) victim
            (λ v h q.
              let other : cpu ≢ me = ground arith in let same : cpu ≡ v = cc in other (same ∙ q))
            (sym s ∙ e)
      | inr shorter ↦
          let s : busiest (c ∷ cs) cpu me best best_len ≡ busiest cs (cpu + 1) me best best_len =
            rw shorter refl in
          busiest_other cs (cpu + 1) me best best_len victim apart (sym s ∙ e)
    ]

module _ (tid : ℕ) where
  stolen_from-tally :
      (c : Cpu) (q : Option (List Thread)) (r : Cpu × Thread)
      → c.queue ≡ q
      → stolen_from c q ≡ some r
      → in_cpu tid c ≡ in_cpu tid r.0 + one tid r.1
  unfolding stolen_from
  stolen_from-tally c none r e h = cc
  stolen_from-tally c (some []) r e h = cc
  stolen_from-tally c (some (t ∷ ts)) r e h =
      let popped = pop_last t ts in
      let after : Cpu × Thread = (record c { queue = some popped.0 }, popped.1) in
      let same : after ≡ r = cc in
      omega (
        arith,
        ap (λ (r : Cpu × Thread). in_cpu tid r.0 + one tid r.1) same,
        ap (λ q. tally tid (queued q)) e,
        tally-pop_last tid t ts,
      )

  -- A stolen thread is taken out of another processor's queue.
  steal-tally :
      (cpus : List Cpu) (me : ℕ) (r : List Cpu × Thread)
      → steal cpus me ≡ some r
      → (in_cpus tid cpus ≡ in_cpus tid r.0 + one tid r.1)
        × (get_elem? r.0 me ≡ get_elem? cpus me)
        × (length r.0 ≡ length cpus)
  unfolding steal
  steal-tally cpus me r e =
      let (victim, v, e1) = bind-some (busiest cpus 0 me none 0) _ r e in
      let (c, g, e2) = bind-some (get_elem? cpus victim) _ r e1 in
      let (taken, h, e3) = bind-some (stolen_from c c.queue) _ r e2 in
      let same : (set cpus victim taken.0, taken.1) ≡ r = cc in
      let other = busiest_other cpus 0 me none 0 victim (λ w n. cc) v in
      (
        omega (
          arith,
          ap (λ (r : List Cpu × Thread). in_cpus tid r.0 + one tid r.1) same,
          stolen_from-tally c c.queue taken refl h,
          in_cpus-set tid cpus victim c taken.0 g,
        ),
        ap (λ (r : List Cpu × Thread). get_elem? r.0 me) (sym same)
            ∙ get_elem?-set_ne cpus victim me taken.0 other,
        ap (λ (r : List Cpu × Thread). length r.0) (sym same) ∙ length-set cpus victim taken.0,
      )

  hand_over-tally :
      (cpus : List Cpu) (me rsp : ℕ) (c : Cpu) (t : Thread) (q : List Thread) (exited : Bool)
      → get_elem? cpus me ≡ some c
      → in_cpus tid (hand_over cpus me rsp t q exited).0 + in_cpu tid c
        ≡ in_cpus tid cpus + one tid t + tally tid q
  unfolding hand_over replace_by resumed parked outgoing
  hand_over-tally cpus me rsp c t [] false e =
      let c' : Cpu = record {
        queue = some [];
        current = some (resumed (parked rsp t));
        zombie = none;
      } in
      omega (arith, in_cpus-set tid cpus me c c' e)
  hand_over-tally cpus me rsp c t (u ∷ q) false e =
      let c' : Cpu = record {
        queue = some (q ++ parked rsp t ∷ []);
        current = some (resumed u);
        zombie = none;
      } in
      omega (arith, in_cpus-set tid cpus me c c' e, tally-append tid q (parked rsp t ∷ []))
  hand_over-tally cpus me rsp c t [] true e = elim (Option-cases (steal cpus me)) [
    | inl n ↦
        let c' : Cpu = record { queue = some []; current = none; zombie = some (outgoing t) } in
        rw n (omega (arith, in_cpus-set tid cpus me c c' e))
    | inr (r, h) ↦
        let c' : Cpu = record {
          queue = some [];
          current = some (resumed r.1);
          zombie = some (parked rsp t);
        } in
        let (moved, kept, len) = steal-tally cpus me r h in
        rw h (omega (arith, in_cpus-set tid r.0 me c c' (kept ∙ e), moved))
  ]
  hand_over-tally cpus me rsp c t (u ∷ q) true e =
      let c' : Cpu = record {
        queue = some q;
        current = some (resumed u);
        zombie = some (parked rsp t);
      } in
      omega (arith, in_cpus-set tid cpus me c c' e)

  dispatch-tally :
      (cpus : List Cpu) (me rsp : ℕ) (c : Cpu) (q : Option (List Thread)) (current : Option Thread)
      → get_elem? cpus me ≡ some c
      → c.queue ≡ q
      → c.current ≡ current
      → in_cpus tid (dispatch cpus me rsp c q current).0 + in_slot tid c.zombie ≡ in_cpus tid cpus
  unfolding dispatch
  dispatch-tally cpus me rsp c none current e eq ec =
      omega (arith, in_cpus-set tid cpus me c (reap c) e)
  dispatch-tally cpus me rsp c (some q) none e eq ec =
      omega (arith, in_cpus-set tid cpus me c (reap c) e)
  dispatch-tally cpus me rsp c (some q) (some t) e eq ec = omega (
    arith,
    hand_over-tally cpus me rsp c t q (is_exited t.state) e,
    ap (λ q. tally tid (queued q)) eq,
    ap (in_slot tid) ec,
  )

length-hand_over :
    (cpus : List Cpu) (me rsp : ℕ) (t : Thread) (q : List Thread) (exited : Bool)
    → length (hand_over cpus me rsp t q exited).0 ≡ length cpus
unfolding hand_over replace_by
length-hand_over cpus me rsp t [] false = length-set cpus me _
length-hand_over cpus me rsp t (u ∷ q) false = length-set cpus me _
length-hand_over cpus me rsp t [] true = elim (Option-cases (steal cpus me)) [
  | inl n ↦ rw n (length-set cpus me _)
  | inr (r, h) ↦ rw h (length-set r.0 me _ ∙ (steal-tally 0 cpus me r h).2)
]
length-hand_over cpus me rsp t (u ∷ q) true = length-set cpus me _

length-dispatch :
    (cpus : List Cpu) (me rsp : ℕ) (c : Cpu) (q : Option (List Thread)) (current : Option Thread)
    → length (dispatch cpus me rsp c q current).0 ≡ length cpus
unfolding dispatch
length-dispatch cpus me rsp c none current = length-set cpus me _
length-dispatch cpus me rsp c (some q) none = length-set cpus me _
length-dispatch cpus me rsp c (some q) (some t) =
    length-hand_over cpus me rsp t q (is_exited t.state)

-- `schedule` is defined on every processor there is, and keeps every thread: each id occurs as often
-- as before, less the zombie that is reaped. No id is given out.
pub schedule-occurrences :
    (s : Scheduler) (me rsp : ℕ) (c : Cpu)
    → get_elem? s.cpus me ≡ some c
    → (r : Scheduler × Option Switch) × (schedule s me rsp ≡ some r)
      × ((tid : ℕ) → occurrences r.0 tid + in_slot tid c.zombie ≡ occurrences s tid)
      × (r.0.next_tid ≡ s.next_tid)
      × (length r.0.cpus ≡ length s.cpus)
unfolding schedule
schedule-occurrences s me rsp c e =
    let d = dispatch s.cpus me rsp c c.queue c.current in
    (
      (record s { cpus = d.0 }, d.1),
      rw e refl,
      λ tid. dispatch-tally tid s.cpus me rsp c c.queue c.current e refl refl,
      refl,
      length-dispatch s.cpus me rsp c c.queue c.current,
    )
