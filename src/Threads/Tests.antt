-- ===== src/Threads/Tests.antt =====
-- Runs of the definitions of kernel_rs/src/thread.rs, and examples of the theorems about them.
use agentic_os.Base.{
  ℕ, ◌≡◌, refl, List, [], ◌∷◌, ◌++◌, true, Option, none, some, ◌>>=◌, get_elem?, ◌==◌, ◌&&◌, not,
  leb, if◌then◌else◌, arith,
}
use agentic_os.Threads.{
  Thread, Cpu, Scheduler, boot, boot_cpu, denied_ports, new_thread, enqueue_new,
  init_as_current_thread,
}
use agentic_os.Threads.Current.{exit_current}
use agentic_os.Threads.RoundRobin.{LocalOp, Waits, Runs, local_run, tick_count, Waits-Runs}
use agentic_os.Capability.{Kernel, KernelObjectKind, create_object}
use agentic_os.Audit.{empty_log}
use agentic_os.Threads.Grants.{spawn_with_capabilities, spawn_with_manifest}
use agentic_os.Threads.Grants.Policy.{
  SpawnsWith, allowed_capabilities, declared_capabilities, plain_thread,
  spawn_with_capabilities_lem, spawn_with_manifest_lem,
}
use agentic_os.Threads.Ports.{
  IsIopb, allow_port_bits, is_port_allowed, iopb_ports, is_port_allowed-allow, denied_ports-IsIopb,
}
use agentic_os.Threads.Schedule.{schedule, resumed, switch_from}
use agentic_os.Threads.System.{Op, step, run}
use agentic_os.Threads.Unique.{UniqueIds, run-UniqueIds, boot-UniqueIds}

abbrev started : List Op
started =
    Op.claims 0 0x9000 0x1000
    ∷ Op.spawns 0 0x20000 (1 ∷ 2 ∷ []) 0x1000
    ∷ Op.schedules 0 0x8f00
    ∷ Op.exits 0
    ∷ Op.schedules 0 0x2ff00
    ∷ []

-- After the only other thread ends, the idle thread is switched to where it was stored.
abbrev after_start : Option (ℕ × ℕ)
after_start = do
  s ← run boot started
  c ← get_elem? s.cpus 0
  t ← c.current
  some (t.id, t.saved_rsp)

after_start_test : after_start ≡ some (1, 0x8f00)
unfolding run step init_as_current_thread enqueue_new schedule exit_current
after_start_test = refl

run-UniqueIds_example : (s' : Scheduler) × (run boot started ≡ some s') × UniqueIds s'
run-UniqueIds_example =
    run-UniqueIds boot started boot-UniqueIds
      (omega arith, (omega arith, (omega arith, (omega arith, (omega arith, tt))))) (omega arith)

abbrev thread_at : ℕ → ℕ → Thread
thread_at tid base = new_thread tid base (1 ∷ 2 ∷ []) 0x1000

abbrev three : Cpu
three = record {
  queue = some (thread_at 2 0x20000 ∷ thread_at 3 0x40000 ∷ []);
  current = some (resumed (thread_at 1 0x60000));
  zombie = none;
}

abbrev one_cpu : Cpu → Scheduler
one_cpu c = record { cpus = c ∷ []; next_tid = 4 }

abbrev local_ops : List LocalOp
local_ops =
    LocalOp.ticks 0x5000
    ∷ LocalOp.ends
    ∷ LocalOp.arrives 0x80000 [] 0x1000
    ∷ LocalOp.ticks 0x6000
    ∷ []

third-Waits : Waits 0 (thread_at 3 0x40000) 1 (one_cpu three)
unfolding Waits
third-Waits = (
  three,
  resumed (thread_at 1 0x60000),
  thread_at 2 0x20000 ∷ thread_at 3 0x40000 ∷ [],
  refl,
  refl,
  refl,
  refl,
)

Waits-Runs_example :
    (before after : List LocalOp) × (rsp : ℕ) × (local_ops ≡ before ++ LocalOp.ticks rsp ∷ after)
    × (tick_count before ≡ 1)
    × (s1 s' : Scheduler) × (out : Thread) × (local_run 0 (one_cpu three) before ≡ some s1)
    × (schedule s1 0 rsp ≡ some (s', some (switch_from out (thread_at 3 0x40000))))
    × Runs 0 (resumed (thread_at 3 0x40000)) s'
Waits-Runs_example =
    Waits-Runs 0 (thread_at 3 0x40000) local_ops (one_cpu three) 1 third-Waits (omega arith)

-- A thread that is alone in its queue is switched to at the stack pointer of its last switch, while
-- the one of this switch is stored.
abbrev alone_rsps : Option (ℕ × ℕ)
alone_rsps = do
  let alone : Cpu = record three { queue = some [] }
  r ← schedule (one_cpu alone) 0 0x5000
  switch ← r.1
  c ← get_elem? r.0.cpus 0
  t ← c.current
  some (switch.rsp, t.saved_rsp)

alone_rsps_test : alone_rsps ≡ some (0x6ffc0, 0x5000)
unfolding schedule resumed new_thread
alone_rsps_test = refl

abbrev object_kernel : Kernel
object_kernel =
    (create_object (record { objects = []; audit = empty_log; current_tid = 1 })
      KernelObjectKind.ipc_endpoint).0

abbrev wanted : List (ℕ × ℕ)
wanted = (0, 3) ∷ (0, 64) ∷ (1, 1) ∷ []

spawn_with_capabilities_example :
    SpawnsWith boot 0 boot_cpu
      (plain_thread boot 0x20000 1 2 0x1000)
      (allowed_capabilities object_kernel.objects wanted)
      (spawn_with_capabilities object_kernel boot 0 0x20000 1 2 0x1000 wanted)
spawn_with_capabilities_example =
    spawn_with_capabilities_lem object_kernel boot 0 0x20000 1 2 0x1000 boot_cpu refl boot-UniqueIds
      wanted

spawn_with_manifest_example :
    SpawnsWith boot 0 boot_cpu
      (plain_thread boot 0x20000 1 2 0x1000)
      (declared_capabilities 1 object_kernel.objects wanted)
      (spawn_with_manifest object_kernel boot 0 0x20000 1 2 0x1000 wanted 1)
spawn_with_manifest_example =
    spawn_with_manifest_lem object_kernel boot 0 0x20000 1 2 0x1000 boot_cpu refl boot-UniqueIds
      wanted 1

is_port_allowed-allow_example :
    (bitmap' : List ℕ) × (allow_port_bits denied_ports 0x3F8 ≡ some bitmap')
    × IsIopb bitmap'
    × ((other : ℕ)
        → is_port_allowed bitmap' other ≡ (
            if 0x3F8 == other && not (leb iopb_ports 0x3F8)
            then some true
            else is_port_allowed denied_ports other))
is_port_allowed-allow_example = is_port_allowed-allow denied_ports 0x3F8 denied_ports-IsIopb
