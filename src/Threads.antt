-- ===== src/Threads.antt =====
-- Threads, kernel_rs/src/thread.rs: a run queue, a current thread and a zombie for each processor.
-- `critical::without_interrupts` makes each body one step; the processor that acts is an argument, as
-- `smp::current_cpu_index()` is read at the call, and so are the address of a new stack and the
-- addresses of the trampolines. An index out of bounds, which panics, is `none`.
pub mod Schedule
pub mod Current
pub mod Grants
pub mod Ports
pub mod System
pub mod Conserved
pub mod Unique
pub mod RoundRobin
mod Tests
use agentic_os.Base.{
  ℕ, zero, suc, ◌+◌, ◌-◌, ◌*◌, ◌/◌, ◌^◌, List, [], ◌∷◌, ◌++◌, Option, none, some, ◌>>=◌, u64,
  length, get_elem?, set, replicate,
}
use agentic_os.Capability.{CapabilityTable}

pub data ThreadState : Type 0 where
  ready running exited : ThreadState

-- `_stack`: its address, its length, and the words that are pushed on a new one, lowest first.
pub record Stack : Type 0 where
  pub base : ℕ
  pub len : ℕ
  pub words : List ℕ

pub record Thread : Type 0 where
  pub id : ℕ
  pub state : ThreadState
  pub saved_rsp : ℕ
  pub stack : Stack
  pub address_space : ℕ
  pub cap_table : CapabilityTable
  pub iopb : List ℕ

-- One processor's slot of `RUN_QUEUES`, `CURRENTS` and `ZOMBIES`.
pub record Cpu : Type 0 where
  pub queue : Option (List Thread)
  pub current : Option Thread
  pub zombie : Option Thread

pub record Scheduler : Type 0 where
  pub cpus : List Cpu
  pub next_tid : ℕ

-- `smp::MAX_CPUS`
abbrev pub max_cpus : ℕ
max_cpus = 32

abbrev pub boot_cpu : Cpu
boot_cpu = record { queue = none; current = none; zombie = none }

-- The statics as the kernel starts.
abbrev pub boot : Scheduler
boot = record { cpus = replicate max_cpus boot_cpu; next_tid = 1 }

abbrev pub kernel_stack_size : ℕ
kernel_stack_size = 64 * 1024

-- `gdt::IOPB_BYTES`
abbrev pub iopb_bytes : ℕ
iopb_bytes = 1024 / 8 + 1

-- Every port is denied to a new thread.
abbrev pub denied_ports : List ℕ
denied_ports = replicate iopb_bytes 0xFF

-- A zeroed `CalleeSaved`.
abbrev pub callee_saved : List ℕ
callee_saved = replicate 6 0

-- The stack that a spawn leaves: the callee-saved registers, then the words pushed before them.
abbrev pub rigged : ℕ → List ℕ → Stack
rigged base pushed = record { base = base; len = kernel_stack_size; words = callee_saved ++ pushed }

-- `stack.as_ptr() as u64 + stack.len() as u64`
abbrev pub stack_top : Stack → ℕ
stack_top s = u64 (s.base + s.len)

-- The thread that a spawn builds: `sp` is moved down by a word for each push.
unfoldable pub new_thread : ℕ → ℕ → List ℕ → ℕ → Thread
new_thread tid base pushed address_space =
    let stack = rigged base pushed in
    record {
      id = tid;
      state = ThreadState.ready;
      saved_rsp = u64 (stack_top stack + 2 ^ 64 - 8 * length stack.words);
      stack = stack;
      address_space = address_space;
      cap_table = [];
      iopb = denied_ports;
    }

-- `push_back` on a queue that is made when there is none.
unfoldable pub push_back : Option (List Thread) → Thread → Option (List Thread)
push_back none t = some (t ∷ [])
push_back (some q) t = some (q ++ t ∷ [])

-- A new thread with the next id, pushed on a processor's queue.
unfoldable pub enqueue_new : Scheduler → ℕ → ℕ → List ℕ → ℕ → Option (Scheduler × ℕ)
unfolding new_thread push_back
enqueue_new s cpu base pushed address_space = do
  c ← get_elem? s.cpus cpu
  let thread = new_thread s.next_tid base pushed address_space
  some (
    record {
      cpus = set s.cpus cpu (record c { queue = push_back c.queue thread });
      next_tid = u64 (s.next_tid + 1);
    },
    s.next_tid,
  )

-- `spawn_in_locked` and `spawn_in`: the trampoline, then the function that it calls.
unfoldable pub spawn_in : Scheduler → ℕ → ℕ → ℕ → ℕ → ℕ → Option (Scheduler × ℕ)
unfolding enqueue_new
spawn_in s me base trampoline entry address_space =
    enqueue_new s me base (trampoline ∷ entry ∷ []) address_space

-- `spawn_user`
unfoldable pub spawn_user : Scheduler → ℕ → ℕ → ℕ → ℕ → ℕ → ℕ → Option (Scheduler × ℕ)
unfolding enqueue_new
spawn_user s me base user_trampoline entry_rip user_rsp address_space =
    enqueue_new s me base (user_trampoline ∷ entry_rip ∷ user_rsp ∷ []) address_space

-- `spawn_pinned_to_cpu`; the interrupt that it sends afterwards makes the target call `schedule`.
unfoldable pub spawn_pinned_to_cpu : Scheduler → ℕ → ℕ → ℕ → ℕ → ℕ → Option (Scheduler × ℕ)
unfolding enqueue_new
spawn_pinned_to_cpu s target_cpu base trampoline entry address_space =
    enqueue_new s target_cpu base (trampoline ∷ entry ∷ []) address_space

-- The context that runs already: its stack is not the kernel's to own.
unfoldable pub idle_thread : ℕ → ℕ → ℕ → Thread
idle_thread tid base kernel_pml4 = record {
  id = tid;
  state = ThreadState.running;
  saved_rsp = 0;
  stack = record { base = base; len = 0; words = [] };
  address_space = kernel_pml4;
  cap_table = [];
  iopb = denied_ports;
}

-- `init_as_current_thread_locked`
unfoldable pub init_as_current_thread : Scheduler → ℕ → ℕ → ℕ → Option Scheduler
unfolding idle_thread
init_as_current_thread s me base kernel_pml4 = do
  c ← get_elem? s.cpus me
  some (record {
    cpus = set s.cpus me (record c { current = some (idle_thread s.next_tid base kernel_pml4) });
    next_tid = u64 (s.next_tid + 1);
  })
