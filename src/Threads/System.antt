-- ===== src/Threads/System.antt =====
-- The operations of kernel_rs/src/thread.rs as steps of any number of processors, and how often a
-- thread id occurs in their queues and slots.
use agentic_os.Base.{
  ℕ, zero, suc, ◌+◌, ◌≡◌, ap, List, [], ◌∷◌, ◌++◌, Option, none, some, ◌>>=◌, ◌==◌, if◌then◌else◌,
  get_elem?, set, arith,
}
use agentic_os.Threads.{Thread, Cpu, Scheduler, enqueue_new, init_as_current_thread}
use agentic_os.Threads.Schedule.{schedule}
use agentic_os.Threads.Current.{exit_current, set_current_address_space, queued}

-- A spawn on a processor's queue, a timer tick, an exit, a processor that claims its idle thread, a
-- change of the page table.
pub data Op : Type 0 where
  spawns : ℕ → ℕ → List ℕ → ℕ → Op
  schedules : ℕ → ℕ → Op
  exits : ℕ → Op
  claims : ℕ → ℕ → ℕ → Op
  moves : ℕ → ℕ → Op

-- The processor whose slots the operation reads first.
abbrev pub cpu_of : Op → ℕ
cpu_of (Op.spawns cpu base pushed space) = cpu
cpu_of (Op.schedules me rsp) = me
cpu_of (Op.exits me) = me
cpu_of (Op.claims me base kernel_pml4) = me
cpu_of (Op.moves me space) = me

unfoldable pub step : Scheduler → Op → Option Scheduler
step s (Op.spawns cpu base pushed space) = enqueue_new s cpu base pushed space >>= λ r. some r.0
step s (Op.schedules me rsp) = schedule s me rsp >>= λ r. some r.0
step s (Op.exits me) = exit_current s me
step s (Op.claims me base kernel_pml4) = init_as_current_thread s me base kernel_pml4
step s (Op.moves me space) = set_current_address_space s me space

unfoldable pub run : Scheduler → List Op → Option Scheduler
run s [] = some s
run s (op ∷ ops) = step s op >>= λ s'. run s' ops

abbrev pub one : ℕ → Thread → ℕ
one tid t = if t.id == tid then 1 else 0

abbrev pub tally : ℕ → List Thread → ℕ
tally tid [] = 0
tally tid (t ∷ ts) = one tid t + tally tid ts

abbrev pub in_slot : ℕ → Option Thread → ℕ
in_slot tid none = 0
in_slot tid (some t) = one tid t

abbrev pub in_cpu : ℕ → Cpu → ℕ
in_cpu tid c = tally tid (queued c.queue) + in_slot tid c.current + in_slot tid c.zombie

abbrev pub in_cpus : ℕ → List Cpu → ℕ
in_cpus tid [] = 0
in_cpus tid (c ∷ cs) = in_cpu tid c + in_cpus tid cs

-- How often a thread with the id is in the system.
abbrev pub occurrences : Scheduler → ℕ → ℕ
occurrences s tid = in_cpus tid s.cpus

pub tally-append :
    (tid : ℕ) (ts us : List Thread) → tally tid (ts ++ us) ≡ tally tid ts + tally tid us
tally-append tid [] us = omega arith
tally-append tid (t ∷ ts) us = omega (arith, tally-append tid ts us)

pub in_cpus-set :
    (tid : ℕ) (cs : List Cpu) (i : ℕ) (c c' : Cpu)
    → get_elem? cs i ≡ some c
    → in_cpus tid (set cs i c') + in_cpu tid c ≡ in_cpus tid cs + in_cpu tid c'
in_cpus-set tid [] i c c' e = cc
in_cpus-set tid (d ∷ cs) zero c c' e = let same : d ≡ c = cc in omega (arith, ap (in_cpu tid) same)
in_cpus-set tid (d ∷ cs) (suc i) c c' e = omega (arith, in_cpus-set tid cs i c c' e)
