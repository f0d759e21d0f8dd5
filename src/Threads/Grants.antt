-- ===== src/Threads/Grants.antt =====
-- Threads that start with capabilities, and the capabilities of the current thread:
-- kernel_rs/src/thread.rs over the operations of kernel_rs/src/capability.rs.
pub mod Policy
use agentic_os.Base.{
  ℕ, suc, ◌+◌, ◌≡◌, ◌≤◌, refl, sym, ◌∙◌, ap, inl, inr, List, [], ◌∷◌, ◌++◌, Bool, true, false,
  Option, none, some, Result, ok, err, ◌>>=◌, ◌==◌, Bool-cases, if◌then◌else◌, get_elem?, set,
  arith,
}
use agentic_os.Audit.{AuditEvent}
use agentic_os.Capability.RightsMask.{Rights, allows}
use agentic_os.Capability.{
  Kernel, KernelObjectKind, Capability, CapabilityTable, CapError, audited, grant, resolve,
  object_kind,
}
use agentic_os.Capability.Files.{find_file_capability, has_any_file_capability}
use agentic_os.Manifest.{Manifest, CapKind, kind_of, kind_number, declares}
use agentic_os.Threads.{Thread, Cpu, Scheduler, spawn_in}
use agentic_os.Threads.Current.{queued}

-- The loop over the grants of `spawn_with_capabilities`.
unfoldable pub grant_allowed :
    Kernel → CapabilityTable → List (ℕ × Rights) → Kernel × CapabilityTable
grant_allowed k table [] = (k, table)
grant_allowed k table ((id, rights) ∷ grants) =
    let (k', table', cap_id) = grant k table id rights in
    let granted = grant_allowed k' table' grants in
    let denied = grant_allowed (audited k (AuditEvent.policy_denied rights)) table grants in
    if allows rights then granted else denied

-- The two tests of the loop: an object that is dead is passed over.
unfoldable pub by_manifest {ℓ} :
    {A : Type ℓ} → Manifest → Option KernelObjectKind → A → A → (CapKind → A) → A
by_manifest m none skipped granted denied = skipped
by_manifest m (some object) skipped granted denied =
    if declares m (kind_of object) then granted else denied (kind_of object)

-- The loop over the grants of `spawn_with_manifest`.
unfoldable pub grant_declared :
    Manifest → Kernel → CapabilityTable → List (ℕ × Rights) → Kernel × CapabilityTable
unfolding by_manifest
grant_declared m k table [] = (k, table)
grant_declared m k table ((id, rights) ∷ grants) =
    let (k', table', cap_id) = grant k table id rights in
    by_manifest m (object_kind k id) (grant_declared m k table grants)
      (grant_declared m k' table' grants)
      (λ kind.
        grant_declared m (audited k (AuditEvent.manifest_denied (kind_number kind))) table grants)

-- `iter_mut().find(|t| t.id == tid)` and the change of the table of the thread that is found.
unfoldable pub set_table :
    (CapabilityTable → Kernel × CapabilityTable) → Kernel → List Thread → ℕ → Kernel × List Thread
set_table change k [] tid = (k, [])
set_table change k (t ∷ ts) tid =
    let (k', table) = change t.cap_table in
    let (k'', later) = set_table change k ts tid in
    if t.id == tid then (k', record t { cap_table = table } ∷ ts) else (k'', t ∷ later)

-- What the two spawns do after `spawn_in_locked`, in the same step.
unfoldable pub equip :
    (Kernel → CapabilityTable → Kernel × CapabilityTable)
    → Kernel
    → ℕ
    → Scheduler × ℕ
    → Option (Kernel × Scheduler × ℕ)
unfolding set_table
equip change k me (s, tid) = do
  c ← get_elem? s.cpus me
  let (k', q) = set_table (change k) k (queued c.queue) tid
  some (k', record s { cpus = set s.cpus me (record c { queue = some q }) }, tid)

unfoldable pub spawn_with_capabilities :
    Kernel → Scheduler → ℕ → ℕ → ℕ → ℕ → ℕ → List (ℕ × Rights) → Option (Kernel × Scheduler × ℕ)
unfolding equip grant_allowed
spawn_with_capabilities k s me base trampoline entry address_space grants = do
  spawned ← spawn_in s me base trampoline entry address_space
  equip (λ k table. grant_allowed k table grants) k me spawned

unfoldable pub spawn_with_manifest :
    Kernel
    → Scheduler
    → ℕ
    → ℕ
    → ℕ
    → ℕ
    → ℕ
    → List (ℕ × Rights)
    → Manifest
    → Option (Kernel × Scheduler × ℕ)
unfolding equip grant_declared
spawn_with_manifest k s me base trampoline entry address_space grants manifest = do
  spawned ← spawn_in s me base trampoline entry address_space
  equip (λ k table. grant_declared manifest k table grants) k me spawned

-- The current thread's table, none when there is no current thread.
abbrev current_table : Cpu → Option CapabilityTable
current_table c = elim c.current [ none ↦ none | some t ↦ some t.cap_table ]

-- `grant_current_capability`: the id is 0 when there is no current thread.
unfoldable pub granted_to : Kernel → Cpu → Option Thread → ℕ → Rights → Kernel × Cpu × ℕ
granted_to k c none id rights = (k, c, 0)
granted_to k c (some t) id rights =
    let (k', table, cap_id) = grant k t.cap_table id rights in
    (k', record c { current = some (record t { cap_table = table }) }, cap_id)

unfoldable pub grant_current_capability :
    Kernel → Scheduler → ℕ → ℕ → Rights → Option (Kernel × Scheduler × ℕ)
unfolding granted_to
grant_current_capability k s me id rights = do
  c ← get_elem? s.cpus me
  let (k', c', cap_id) = granted_to k c c.current id rights
  some (k', record s { cpus = set s.cpus me c' }, cap_id)

-- `resolve_current_capability`
unfoldable pub resolve_current_capability :
    Kernel → Scheduler → ℕ → ℕ → Rights → Option (Kernel × Result CapError Capability)
resolve_current_capability k s me cap_id required = do
  c ← get_elem? s.cpus me
  some (elim (current_table c) [
    | none ↦ (k, err CapError.no_such_capability)
    | some table ↦ resolve k table cap_id required
  ])

unfoldable pub is_found : Kernel × Option ℕ → Kernel × Bool
is_found (k, none) = (k, false)
is_found (k, some cap_id) = (k, true)

-- `current_has_file_capability`
unfoldable pub current_has_file_capability :
    Kernel → Scheduler → ℕ → ℕ → Rights → Option (Kernel × Bool)
unfolding is_found
current_has_file_capability k s me inode required = do
  c ← get_elem? s.cpus me
  some (elim (current_table c) [
    | none ↦ (k, false)
    | some table ↦ is_found (find_file_capability k table inode required)
  ])

-- `current_has_any_file_capability`
unfoldable pub current_has_any_file_capability :
    Kernel → Scheduler → ℕ → Rights → Option (Kernel × Bool)
current_has_any_file_capability k s me required = do
  c ← get_elem? s.cpus me
  some (elim (current_table c) [
    | none ↦ (k, false)
    | some table ↦ has_any_file_capability k table required
  ])

unfoldable pub inode_of : Option KernelObjectKind → Option ℕ
inode_of (some (KernelObjectKind.file_object inode)) = some inode
inode_of _ = none

unfoldable pub file_of : Kernel × Result CapError Capability → Kernel × Option ℕ
unfolding inode_of
file_of (k, ok cap) = (k, inode_of (object_kind k cap.object_id))
file_of (k, err e) = (k, none)

-- `resolve_file_capability`
unfoldable pub resolve_file_capability :
    Kernel → Scheduler → ℕ → ℕ → Rights → Option (Kernel × Option ℕ)
unfolding file_of
resolve_file_capability k s me cap_id required =
    resolve_current_capability k s me cap_id required >>= λ r. some (file_of r)
