-- ===== src/Threads/Grants/Policy.antt =====
-- What a thread spawned by kernel_rs/src/thread.rs may hold at its start.
use agentic_os.Base.{
  ℕ, ◌+◌, ◌≡◌, refl, sym, ◌∙◌, ap, inl, inr, List, [], ◌∷◌, ◌++◌, Bool, true, false, ◌&&◌, Option,
  none, some, ◌>>=◌, ◌==◌, Bool-cases, Option-cases, if◌then◌else◌, get_elem?, set, lt-length,
  get_elem?-set_self, subst, u64, arith,
}
use agentic_os.Capability.RightsMask.{Rights, allows}
use agentic_os.Capability.{
  Kernel, KernelObject, Capability, CapabilityTable, grant, generation_of, object_kind,
}
use agentic_os.Manifest.{Manifest, kind_of, declares}
use agentic_os.Threads.{Thread, Cpu, Scheduler, spawn_in, enqueue_new, new_thread, push_back}
use agentic_os.Threads.Current.{queued}
use agentic_os.Threads.System.{tally}
use agentic_os.Threads.Unique.{UniqueIds, next_tid-absent}
use agentic_os.Threads.Grants.{
  grant_allowed, grant_declared, by_manifest, set_table, equip, spawn_with_capabilities,
  spawn_with_manifest,
}

-- The capability to an object as it is now.
abbrev fresh_capability : List KernelObject → ℕ → Rights → Capability
fresh_capability objects id rights = record {
  object_id = id;
  rights = rights;
  generation = generation_of objects id;
}

-- The wanted capabilities that the policy allows, in their order.
abbrev pub allowed_capabilities : List KernelObject → List (ℕ × Rights) → CapabilityTable
allowed_capabilities objects [] = []
allowed_capabilities objects ((id, rights) ∷ grants) =
    let rest = allowed_capabilities objects grants in
    if allows rights then some (fresh_capability objects id rights) ∷ rest else rest

-- Whether the manifest declares the kind of the object, which must be alive.
abbrev pub is_declared : Manifest → Option KernelObject → Bool
is_declared m none = false
is_declared m (some o) = o.alive && declares m (kind_of o.kind)

-- The wanted capabilities that the manifest declares, in their order.
abbrev pub declared_capabilities :
    Manifest → List KernelObject → List (ℕ × Rights) → CapabilityTable
declared_capabilities m objects [] = []
declared_capabilities m objects ((id, rights) ∷ grants) =
    let rest = declared_capabilities m objects grants in
    if is_declared m (get_elem? objects id)
    then some (fresh_capability objects id rights) ∷ rest
    else rest

append-nil {ℓ} : {A : Type ℓ} (xs : List A) → xs ++ [] ≡ xs
append-nil [] = refl
append-nil (x ∷ xs) = ap (λ l. x ∷ l) (append-nil xs)

snoc-append {ℓ} :
    {A : Type ℓ} (xs : List A) (y : A) (ys : List A) → (xs ++ y ∷ []) ++ ys ≡ xs ++ y ∷ ys
snoc-append [] y ys = refl
snoc-append (x ∷ xs) y ys = ap (λ l. x ∷ l) (snoc-append xs y ys)

grant_allowed-table :
    (grants : List (ℕ × Rights)) (k : Kernel) (table : CapabilityTable)
    → (grant_allowed k table grants).1 ≡ table ++ allowed_capabilities k.objects grants
unfolding grant_allowed grant
grant_allowed-table [] k table = sym (append-nil table)
grant_allowed-table ((id, rights) ∷ grants) k table = elim (Bool-cases (allows rights)) [
  | inl y ↦ rw y (grant_allowed-table grants _ _ ∙ snoc-append table _ _)
  | inr n ↦ rw n (grant_allowed-table grants _ table)
]

grant_declared-table :
    (m : Manifest) (grants : List (ℕ × Rights)) (k : Kernel) (table : CapabilityTable)
    → (grant_declared m k table grants).1 ≡ table ++ declared_capabilities m k.objects grants
unfolding grant_declared by_manifest grant object_kind
grant_declared-table m [] k table = sym (append-nil table)
grant_declared-table m ((id, rights) ∷ grants) k table =
    elim (Option-cases (get_elem? k.objects id)) [
      | inl n ↦ rw n (grant_declared-table m grants k table)
      | inr (o, e) ↦ elim (Bool-cases o.alive) [
        | inr dead ↦ rw e (rw dead (grant_declared-table m grants k table))
        | inl live ↦ elim (Bool-cases (declares m (kind_of o.kind))) [
          | inl y ↦
              rw e (rw live (rw y (grant_declared-table m grants _ _ ∙ snoc-append table _ _)))
          | inr n ↦ rw e (rw live (rw n (grant_declared-table m grants _ table)))
        ]
      ]
    ]

if_same {ℓ} : {A : Type ℓ} (x y : A) (n : ℕ) → (if n == n then x else y) ≡ x
if_same x y n = let e : (n == n) ≡ true = ground arith in rw e refl

-- The search for a thread that was pushed last and whose id is new.
set_table-last :
    (change : CapabilityTable → Kernel × CapabilityTable) (k : Kernel) (q : List Thread)
    (t : Thread)
    → tally t.id q ≡ 0
    → (set_table change k (q ++ t ∷ []) t.id).1
      ≡ q ++ record t { cap_table = (change t.cap_table).1 } ∷ []
unfolding set_table
set_table-last change k [] t h = ap (λ (r : Kernel × List Thread). r.1) (if_same _ _ t.id)
set_table-last change k (u ∷ q) t h = elim (Bool-cases (u.id == t.id)) [
  | inl same ↦ absurd (ground arith)
  | inr other ↦ rw other (ap (λ l. u ∷ l) (set_table-last change k q t (ground arith)))
]

queued-push_back :
    (q : Option (List Thread)) (t : Thread) → queued (push_back q t) ≡ queued q ++ t ∷ []
unfolding push_back
queued-push_back none t = refl
queued-push_back (some q) t = refl

-- The thread as `spawn_in_locked` leaves it.
abbrev pub plain_thread : Scheduler → ℕ → ℕ → ℕ → ℕ → Thread
plain_thread s base trampoline entry space =
    new_thread s.next_tid base (trampoline ∷ entry ∷ []) space

-- A spawn that ends with the queue as it was, behind it the new thread with the table.
abbrev pub SpawnsWith :
    Scheduler → ℕ → Cpu → Thread → CapabilityTable → Option (Kernel × Scheduler × ℕ) → Type 0
SpawnsWith s me c t table spawned =
    (k' : Kernel) × (s' : Scheduler) × (spawned ≡ some (k', s', s.next_tid))
    × (c' : Cpu) × (get_elem? s'.cpus me ≡ some c')
    × (c'.queue ≡ some (queued c.queue ++ record t { cap_table = table } ∷ []))

module _ (k : Kernel) (s : Scheduler) (me base trampoline entry space : ℕ) (c : Cpu)
    (e : get_elem? s.cpus me ≡ some c) (u : UniqueIds s) where
  abbrev plain : Thread
  plain = plain_thread s base trampoline entry space

  abbrev pushed : Cpu
  pushed = record c { queue = push_back c.queue plain }

  equip-SpawnsWith :
      (change : Kernel → CapabilityTable → Kernel × CapabilityTable)
      → SpawnsWith s me c plain
          (change k []).1
          (spawn_in s me base trampoline entry space >>= equip change k me)
  unfolding spawn_in enqueue_new equip new_thread
  equip-SpawnsWith change =
      let cpus = set s.cpus me pushed in
      let found = set_table (change k) k (queued pushed.queue) s.next_tid in
      let c' : Cpu = record pushed { queue = some found.1 } in
      let new : tally s.next_tid (queued c.queue) ≡ 0 = next_tid-absent s me c e u in
      let e1 : get_elem? cpus me ≡ some pushed =
        get_elem?-set_self s.cpus me pushed (lt-length s.cpus me e) in
      (
        found.0,
        record { cpus = set cpus me c'; next_tid = u64 (s.next_tid + 1) },
        rw e (rw e1 refl),
        c',
        get_elem?-set_self cpus me c' (lt-length cpus me e1),
        ap some (
            ap (λ q. (set_table (change k) k q s.next_tid).1) (queued-push_back c.queue plain)
            ∙ set_table-last (change k) k (queued c.queue) plain new),
      )

  -- A thread spawned with a list of wanted capabilities is put behind the queue with exactly those of
  -- them in its table that the agent policy allows, in their order and at the current generation of
  -- their objects, when thread ids are unique: no other thread of the queue is given anything.
  pub spawn_with_capabilities_lem :
      (grants : List (ℕ × Rights))
      → SpawnsWith s me c plain
          (allowed_capabilities k.objects grants)
          (spawn_with_capabilities k s me base trampoline entry space grants)
  unfolding spawn_with_capabilities
  spawn_with_capabilities_lem grants =
      subst
        (λ table.
          SpawnsWith s me c plain table
            (spawn_with_capabilities k s me base trampoline entry space grants))
        (grant_allowed-table grants k [])
        (equip-SpawnsWith (λ k table. grant_allowed k table grants))

  -- The same for a manifest: exactly the wanted capabilities to live objects whose kind the manifest
  -- declares.
  pub spawn_with_manifest_lem :
      (grants : List (ℕ × Rights)) (m : Manifest)
      → SpawnsWith s me c plain
          (declared_capabilities m k.objects grants)
          (spawn_with_manifest k s me base trampoline entry space grants m)
  unfolding spawn_with_manifest
  spawn_with_manifest_lem grants m =
      subst
        (λ table.
          SpawnsWith s me c plain table
            (spawn_with_manifest k s me base trampoline entry space grants m))
        (grant_declared-table m grants k [])
        (equip-SpawnsWith (λ k table. grant_declared m k table grants))
