-- ===== src/Threads/Schedule.antt =====
-- `schedule` of kernel_rs/src/thread.rs. `switch_to` stores the stack pointer of the outgoing thread
-- and loads the one that was read from the incoming thread before that store.
use agentic_os.Base.{
  ℕ, ◌+◌, List, [], ◌∷◌, ◌++◌, Bool, true, false, not, ◌&&◌, Option, none, some, ◌>>=◌, ltb, ◌==◌,
  if◌then◌else◌, length, get_elem?, set,
}
use agentic_os.Threads.{Thread, ThreadState, Cpu, Scheduler, stack_top}

-- What the processor is given: TSS.RSP0 and the syscall stack, the I/O bitmap, and the stack pointer
-- and page table that `switch_to` loads.
pub record Switch : Type 0 where
  pub from : ℕ
  pub to : ℕ
  pub rsp0 : ℕ
  pub iopb : List ℕ
  pub rsp : ℕ
  pub cr3 : ℕ

-- The address space of the zombie is destroyed unless it is 0 or the kernel's.
unfoldable pub destroyed_space : ℕ → Option Thread → Option ℕ
destroyed_space kernel_pml4 none = none
destroyed_space kernel_pml4 (some z) =
    if not (z.address_space == 0) && not (z.address_space == kernel_pml4)
    then some z.address_space
    else none

-- A processor with the zombie reaped.
abbrev pub reap : Cpu → Cpu
reap c = record c { zombie = none }

-- A thread that was running is ready again.
unfoldable pub yielded : ThreadState → ThreadState
yielded ThreadState.running = ThreadState.ready
yielded ThreadState.ready = ThreadState.ready
yielded ThreadState.exited = ThreadState.exited

unfoldable pub is_exited : ThreadState → Bool
is_exited ThreadState.exited = true
is_exited ThreadState.running = false
is_exited ThreadState.ready = false

unfoldable pub outgoing : Thread → Thread
unfolding yielded
outgoing t = record t { state = yielded t.state }

-- The store of `switch_to` through `old_rsp_slot`.
unfoldable pub parked : ℕ → Thread → Thread
unfolding outgoing
parked rsp t = record (outgoing t) { saved_rsp = rsp }

unfoldable pub resumed : Thread → Thread
resumed t = record t { state = ThreadState.running }

unfoldable pub switch_from : Thread → Thread → Switch
switch_from out next = record {
  from = out.id;
  to = next.id;
  rsp0 = stack_top next.stack;
  iopb = next.iopb;
  rsp = next.saved_rsp;
  cr3 = next.address_space;
}

-- `pop_back`: what is before the last thread, and the last.
abbrev pub pop_last : Thread → List Thread → List Thread × Thread
pop_last t [] = ([], t)
pop_last t (u ∷ us) = let (rest, last) = pop_last u us in (t ∷ rest, last)

abbrev pub pop_back : List Thread → Option (List Thread × Thread)
pop_back [] = none
pop_back (t ∷ ts) = some (pop_last t ts)

unfoldable pub queue_length : Cpu → ℕ
queue_length c = elim c.queue [ none ↦ 0 | some q ↦ length q ]

-- The search for the other processor with the longest queue, the first of those that are longest.
unfoldable pub busiest : List Cpu → ℕ → ℕ → Option ℕ → ℕ → Option ℕ
unfolding queue_length
busiest [] cpu me best best_len = best
busiest (c ∷ cs) cpu me best best_len =
    if not (cpu == me) && ltb best_len (queue_length c)
    then busiest cs (cpu + 1) me (some cpu) (queue_length c)
    else busiest cs (cpu + 1) me best best_len

-- The victim's processor without the last thread of its queue.
unfoldable pub stolen_from : Cpu → Option (List Thread) → Option (Cpu × Thread)
stolen_from c none = none
stolen_from c (some q) = pop_back q >>= λ r. some (record c { queue = some r.0 }, r.1)

-- The processors and the thread that is stolen, `none` when every other queue is empty.
unfoldable pub steal : List Cpu → ℕ → Option (List Cpu × Thread)
unfolding busiest stolen_from
steal cpus me = do
  victim ← busiest cpus 0 me none 0
  c ← get_elem? cpus victim
  taken ← stolen_from c c.queue
  some (set cpus victim taken.0, taken.1)

-- The last part for an exited thread with an empty queue: it is stashed, then a thread is stolen. The
-- path that finds none returns with no current thread.
unfoldable pub replace_by :
    List Cpu → ℕ → ℕ → Thread → Option (List Cpu × Thread) → List Cpu × Option Switch
unfolding parked outgoing resumed switch_from
replace_by cpus me rsp t none =
    (set cpus me (record { queue = some []; current = none; zombie = some (outgoing t) }), none)
replace_by cpus me rsp t (some (others, next)) = (
  set others me
      (record { queue = some []; current = some (resumed next); zombie = some (parked rsp t) }),
  some (switch_from t next),
)

-- The rest of `schedule_locked` at the current thread and the queue. A thread that is alone is pushed
-- and popped again: it goes out and comes in.
unfoldable pub hand_over : List Cpu → ℕ → ℕ → Thread → List Thread → Bool → List Cpu × Option Switch
unfolding parked resumed switch_from replace_by steal
hand_over cpus me rsp t [] false = (
  set cpus me (record { queue = some []; current = some (resumed (parked rsp t)); zombie = none }),
  some (switch_from t t),
)
hand_over cpus me rsp t (next ∷ q) false = (
  set cpus me (record {
    queue = some (q ++ parked rsp t ∷ []);
    current = some (resumed next);
    zombie = none;
  }),
  some (switch_from t next),
)
hand_over cpus me rsp t [] true = replace_by cpus me rsp t (steal cpus me)
hand_over cpus me rsp t (next ∷ q) true = (
  set cpus me
      (record { queue = some q; current = some (resumed next); zombie = some (parked rsp t) }),
  some (switch_from t next),
)

-- The early returns when there is no queue or no current thread.
unfoldable pub dispatch :
    List Cpu → ℕ → ℕ → Cpu → Option (List Thread) → Option Thread → List Cpu × Option Switch
unfolding hand_over is_exited
dispatch cpus me rsp c none current = (set cpus me (reap c), none)
dispatch cpus me rsp c (some q) none = (set cpus me (reap c), none)
dispatch cpus me rsp c (some q) (some t) = hand_over cpus me rsp t q (is_exited t.state)

-- `schedule` at the stack pointer `rsp`: the scheduler and what is switched to, if anything.
unfoldable pub schedule : Scheduler → ℕ → ℕ → Option (Scheduler × Option Switch)
unfolding dispatch
schedule s me rsp = do
  c ← get_elem? s.cpus me
  let (cpus, switch) = dispatch s.cpus me rsp c c.queue c.current
  some (record s { cpus = cpus }, switch)
