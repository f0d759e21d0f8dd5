-- ===== src/Threads/Current.antt =====
-- What kernel_rs/src/thread.rs does to the current thread of a processor, and the snapshot of all
-- threads.
use agentic_os.Base.{
  ℕ, List, [], ◌∷◌, ◌++◌, Bool, not, Option, none, some, ◌>>=◌, ◌==◌, get_elem?, set,
}
use agentic_os.Threads.{Thread, ThreadState, Cpu, Scheduler, stack_top}
use agentic_os.Threads.Schedule.{Switch, schedule}

abbrev pub if_current : (Thread → Thread) → Option Thread → Option Thread
if_current change none = none
if_current change (some t) = some (change t)

-- A change of the current thread, nothing when there is none.
unfoldable pub change_current : (Thread → Thread) → Scheduler → ℕ → Option Scheduler
change_current change s me = do
  c ← get_elem? s.cpus me
  some (record s { cpus = set s.cpus me (record c { current = if_current change c.current }) })

abbrev pub exit_thread : Thread → Thread
exit_thread t = record t { state = ThreadState.exited }

-- `exit_current`, up to its endless loop.
unfoldable pub exit_current : Scheduler → ℕ → Option Scheduler
unfolding change_current
exit_current s me = change_current exit_thread s me

-- `kill_current_and_reschedule`; between its two steps other processors may act.
unfoldable pub kill_current_and_reschedule : Scheduler → ℕ → ℕ → Option (Scheduler × Option Switch)
unfolding exit_current schedule
kill_current_and_reschedule s me rsp = exit_current s me >>= λ s'. schedule s' me rsp

unfoldable pub set_current_address_space : Scheduler → ℕ → ℕ → Option Scheduler
unfolding change_current
set_current_address_space s me pml4_phys =
    change_current (λ t. record t { address_space = pml4_phys }) s me

-- `current_id`: 0 when there is none.
unfoldable pub current_id : Scheduler → ℕ → Option ℕ
current_id s me = do c ← get_elem? s.cpus me; some (elim c.current [ none ↦ 0 | some t ↦ t.id ])

unfoldable pub current_kernel_stack_top : Scheduler → ℕ → Option ℕ
current_kernel_stack_top s me = do
  c ← get_elem? s.cpus me
  some (elim c.current [ none ↦ 0 | some t ↦ stack_top t.stack ])

pub record ThreadInfo : Type 0 where
  pub id : ℕ
  pub state : ThreadState
  pub is_user : Bool

unfoldable pub info : ℕ → ThreadState → Thread → ThreadInfo
info kernel_pml4 state t = record {
  id = t.id;
  state = state;
  is_user = not (t.address_space == kernel_pml4);
}

unfoldable pub queue_infos : ℕ → List Thread → List ThreadInfo
unfolding info
queue_infos kernel_pml4 [] = []
queue_infos kernel_pml4 (t ∷ ts) = info kernel_pml4 t.state t ∷ queue_infos kernel_pml4 ts

abbrev pub queued : Option (List Thread) → List Thread
queued none = []
queued (some q) = q

unfoldable pub current_infos : ℕ → Option Thread → List ThreadInfo
unfolding info
current_infos kernel_pml4 none = []
current_infos kernel_pml4 (some t) = info kernel_pml4 ThreadState.running t ∷ []

-- The loop of `snapshot` over the processors.
unfoldable pub snapshot_from : ℕ → List Cpu → List ThreadInfo
unfolding current_infos queue_infos
snapshot_from kernel_pml4 [] = []
snapshot_from kernel_pml4 (c ∷ cs) =
    current_infos kernel_pml4 c.current
    ++ queue_infos kernel_pml4 (queued c.queue)
    ++ snapshot_from kernel_pml4 cs

unfoldable pub snapshot : ℕ → Scheduler → List ThreadInfo
unfolding snapshot_from
snapshot kernel_pml4 s = snapshot_from kernel_pml4 s.cpus
