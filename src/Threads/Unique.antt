-- ===== src/Threads/Unique.antt =====
-- Thread ids of kernel_rs/src/thread.rs are unique: the invariant of all operations.
use agentic_os.Base.{
  ℕ, zero, suc, ◌+◌, ◌^◌, ◌≡◌, ◌≤◌, ◌<◌, refl, sym, ap, inl, inr, List, [], ◌∷◌, Option, none, some,
  ◌>>=◌, length, get_elem?, set, length-set, get_elem?-some, ◌==◌, ◌⊎◌, subst, if◌then◌else◌, u64,
  arith,
}
use agentic_os.Threads.{
  Thread, Cpu, Scheduler, enqueue_new, new_thread, push_back, init_as_current_thread, idle_thread,
  boot,
}
use agentic_os.Threads.Schedule.{schedule}
use agentic_os.Threads.Current.{
  exit_thread, exit_current, set_current_address_space, change_current, if_current, queued,
}
use agentic_os.Threads.System.{
  Op, cpu_of, step, run, one, tally, in_slot, in_cpu, in_cpus, occurrences, tally-append,
  in_cpus-set,
}
use agentic_os.Threads.Conserved.{schedule-occurrences}

-- No id occurs twice, and only ids that were given out occur.
pub UniqueIds : Scheduler → Type 0
UniqueIds s = (tid : ℕ) → (occurrences s tid ≤ 1) × (s.next_tid ≤ tid → occurrences s tid ≡ 0)

abbrev fresh_one : Scheduler → ℕ → ℕ
fresh_one s tid = if s.next_tid == tid then 1 else 0

-- What an operation does: no thread more, or one thread with the next id.
pub Grows : Scheduler → Scheduler → Type 0
Grows s s' =
    ((s'.next_tid ≡ s.next_tid) × ((tid : ℕ) → occurrences s' tid ≤ occurrences s tid))
    ⊎ ((s'.next_tid ≡ u64 (s.next_tid + 1))
        × ((tid : ℕ) → occurrences s' tid ≤ occurrences s tid + fresh_one s tid))

Grows-UniqueIds :
    (s s' : Scheduler) → Grows s s' → s.next_tid + 1 < 2 ^ 64 → UniqueIds s → UniqueIds s'
unfolding UniqueIds Grows
Grows-UniqueIds s s' (inl (same, fewer)) room u tid =
    let (once, beyond) = u tid in
    (omega (arith, fewer tid), λ h. omega (arith, fewer tid, beyond (omega arith)))
Grows-UniqueIds s s' (inr (next, more)) room u tid =
    let (once, beyond) = u tid in (ground (arith, more tid), λ h. ground (arith, more tid))

-- The outcome of an operation that is defined.
abbrev Stepped : Scheduler → Option Scheduler → Type 0
Stepped s o = (s' : Scheduler) × (o ≡ some s') × Grows s s' × (length s'.cpus ≡ length s.cpus)

push_back-tally :
    (tid : ℕ) (q : Option (List Thread)) (t : Thread)
    → tally tid (queued (push_back q t)) ≡ tally tid (queued q) + one tid t
unfolding push_back
push_back-tally tid none t = omega arith
push_back-tally tid (some q) t = omega (arith, tally-append tid q (t ∷ []))

module _ (s : Scheduler) (me : ℕ) (c : Cpu) (e : get_elem? s.cpus me ≡ some c) where
  enqueue_new-Stepped :
      (base : ℕ) (pushed : List ℕ) (space : ℕ)
      → Stepped s (enqueue_new s me base pushed space >>= λ r. some r.0)
  unfolding enqueue_new new_thread Grows
  enqueue_new-Stepped base pushed space =
      let t = new_thread s.next_tid base pushed space in
      let c' : Cpu = record c { queue = push_back c.queue t } in
      (
        record { cpus = set s.cpus me c'; next_tid = u64 (s.next_tid + 1) },
        rw e refl,
        inr (
          refl,
          λ tid. omega (arith, push_back-tally tid c.queue t, in_cpus-set tid s.cpus me c c' e),
        ),
        length-set s.cpus me c',
      )

  init-Stepped : (base kernel_pml4 : ℕ) → Stepped s (init_as_current_thread s me base kernel_pml4)
  unfolding init_as_current_thread idle_thread Grows
  init-Stepped base kernel_pml4 =
      let c' : Cpu = record c { current = some (idle_thread s.next_tid base kernel_pml4) } in
      (
        record { cpus = set s.cpus me c'; next_tid = u64 (s.next_tid + 1) },
        rw e refl,
        inr (refl, λ tid. omega (arith, in_cpus-set tid s.cpus me c c' e)),
        length-set s.cpus me c',
      )

  change_current-Stepped :
      (change : Thread → Thread)
      → ((t : Thread) → (change t).id ≡ t.id)
      → Stepped s (change_current change s me)
  unfolding change_current Grows
  change_current-Stepped change same_id =
      let c' : Cpu = record c { current = if_current change c.current } in
      (
        record s { cpus = set s.cpus me c' },
        rw e refl,
        inl (refl, λ tid. omega (arith, in_cpus-set tid s.cpus me c c' e, kept tid c.current)),
        length-set s.cpus me c',
      )
    where
      kept : (tid : ℕ) (o : Option Thread) → in_slot tid (if_current change o) ≡ in_slot tid o
      kept tid none = refl
      kept tid (some t) = ap (λ id. if id == tid then 1 else 0) (same_id t)

  schedule-Stepped : (rsp : ℕ) → Stepped s (schedule s me rsp >>= λ r. some r.0)
  unfolding Grows
  schedule-Stepped rsp =
      let (r, h, kept, same, len) = schedule-occurrences s me rsp c e in
      (r.0, rw h refl, inl (same, λ tid. omega (arith, kept tid)), len)

step-Stepped : (s : Scheduler) (op : Op) → cpu_of op < length s.cpus → Stepped s (step s op)
unfolding step exit_current set_current_address_space
step-Stepped s (Op.spawns cpu base pushed space) h =
    let (c, e) = get_elem?-some s.cpus cpu h in enqueue_new-Stepped s cpu c e base pushed space
step-Stepped s (Op.schedules me rsp) h =
    let (c, e) = get_elem?-some s.cpus me h in schedule-Stepped s me c e rsp
step-Stepped s (Op.exits me) h =
    let (c, e) = get_elem?-some s.cpus me h in
    change_current-Stepped s me c e exit_thread (λ t. refl)
step-Stepped s (Op.claims me base kernel_pml4) h =
    let (c, e) = get_elem?-some s.cpus me h in init-Stepped s me c e base kernel_pml4
step-Stepped s (Op.moves me space) h =
    let (c, e) = get_elem?-some s.cpus me h in
    change_current-Stepped s me c e (λ t. record t { address_space = space }) (λ t. refl)

-- Every operation is one of a processor that exists.
abbrev pub Within : ℕ → List Op → Type 0
Within n [] = Unit
Within n (op ∷ ops) = (cpu_of op < n) × Within n ops

next_tid-Grows : (s s' : Scheduler) → Grows s s' → s'.next_tid ≤ s.next_tid + 1
unfolding Grows
next_tid-Grows s s' (inl (same, fewer)) = omega arith
next_tid-Grows s s' (inr (next, more)) = omega arith

-- From any scheduler with unique thread ids, any sequence of spawns, ticks, exits, claims and changes
-- of the page table on processors that exist runs to its end, work stealing included, and no thread
-- id occurs twice in all queues, current slots and zombie slots together; ids not given out yet do
-- not occur. The counter of ids must not reach 2 ^ 64.
pub run-UniqueIds :
    (s : Scheduler) (ops : List Op)
    → UniqueIds s
    → Within (length s.cpus) ops
    → s.next_tid + length ops < 2 ^ 64
    → (s' : Scheduler) × (run s ops ≡ some s') × UniqueIds s'
unfolding run
run-UniqueIds s [] u w room = (s, refl, u)
run-UniqueIds s (op ∷ ops) u w room =
    let (s1, e, g, len) = step-Stepped s op w.0 in
    let (s', e', u') =
      run-UniqueIds s1 ops (Grows-UniqueIds s s1 g (omega arith) u)
        (subst (λ n. Within n ops) (sym len) w.1) (omega (arith, next_tid-Grows s s1 g)) in
    (s', rw e e', u')

-- As the kernel starts no thread exists.
pub boot-UniqueIds : UniqueIds boot
unfolding UniqueIds
boot-UniqueIds tid = (omega arith, λ h. refl)

in_cpu-le :
    (tid : ℕ) (cs : List Cpu) (i : ℕ) (c : Cpu)
    → get_elem? cs i ≡ some c
    → in_cpu tid c ≤ in_cpus tid cs
in_cpu-le tid [] i c e = cc
in_cpu-le tid (d ∷ cs) zero c e = let same : d ≡ c = cc in omega (arith, ap (in_cpu tid) same)
in_cpu-le tid (d ∷ cs) (suc i) c e = omega (arith, in_cpu-le tid cs i c e)

-- The next id is not in any queue.
pub next_tid-absent :
    (s : Scheduler) (me : ℕ) (c : Cpu)
    → get_elem? s.cpus me ≡ some c
    → UniqueIds s
    → tally s.next_tid (queued c.queue) ≡ 0
unfolding UniqueIds
next_tid-absent s me c e u =
    omega (arith, in_cpu-le s.next_tid s.cpus me c e, (u s.next_tid).1 (omega arith))
