-- ===== src/Capability.antt =====
-- Capabilities, kernel_rs/src/capability.rs: the global object table, a process's capability table,
-- and the operations on both. `critical::without_interrupts` makes each body one atomic step.
pub mod RightsMask
pub mod Files
pub mod Resolve
pub mod Derive
pub mod World
pub mod Evolution
pub mod Holding
pub mod History
pub mod Revocation
mod Tests
use agentic_os.Base.{
  ℕ, suc, ◌+◌, ◌%◌, ◌^◌, List, [], ◌∷◌, ◌++◌, Bool, true, false, Option, none, some, Result, ok,
  err, length, get_elem?, set, ◌==◌, u32, u64, if◌then◌else◌, ◌>>=◌,
}
use agentic_os.Audit.{AuditLog, AuditEvent, record_event}
use RightsMask.{Rights, contains, grant_right}

-- `SocketProtocol`
pub data SocketProtocol : Type 0 where
  udp tcp : SocketProtocol

abbrev pub Ipv4 : Type 0
Ipv4 = ℕ × ℕ × ℕ × ℕ

-- `KernelObjectKind`
pub data KernelObjectKind : Type 0 where
  ipc_endpoint : KernelObjectKind
  mmio_region : ℕ → ℕ → KernelObjectKind
  interrupt_line : ℕ → KernelObjectKind
  port_io_range : ℕ → ℕ → KernelObjectKind
  file_object : ℕ → KernelObjectKind
  introspection_handle : KernelObjectKind
  audit_query_handle : KernelObjectKind
  socket : SocketProtocol → ℕ → Ipv4 → ℕ → KernelObjectKind
  surface : ℕ → ℕ → ℕ → ℕ → KernelObjectKind
  user_session : ℕ → KernelObjectKind
  crypto_key : ℕ → KernelObjectKind
  dns_resolver : Ipv4 → KernelObjectKind
  exec_handle : KernelObjectKind

pub record KernelObject : Type 0 where
  pub kind : KernelObjectKind
  pub generation : ℕ
  pub alive : Bool

pub record Capability : Type 0 where
  pub object_id : ℕ
  pub rights : Rights
  pub generation : ℕ

pub data CapError : Type 0 where
  no_such_capability insufficient_rights revoked attenuation_violation : CapError

-- `CapabilityTable`: its slots.
abbrev pub CapabilityTable : Type 0
CapabilityTable = List (Option Capability)

-- The statics that these operations read and write: `OBJECTS`, the audit log, the current thread.
pub record Kernel : Type 0 where
  pub objects : List KernelObject
  pub audit : AuditLog
  pub current_tid : ℕ

abbrev pub audited : Kernel → AuditEvent → Kernel
audited k e = record k { audit = record_event k.audit k.current_tid e }

-- `create_object`: the new kernel and the object's id, which is cast to u32.
unfoldable pub create_object : Kernel → KernelObjectKind → Kernel × ℕ
create_object k kind = (record k { objects = k.objects ++ fresh ∷ [] }, u32 (length k.objects))
  where
    fresh : KernelObject
    fresh = record { kind = kind; generation = 1; alive = true }

unfoldable pub object_count : Kernel → ℕ
object_count k = length k.objects

abbrev pub if_alive : Option KernelObject → Option KernelObject
if_alive none = none
if_alive (some o) = if o.alive then some o else none

unfoldable pub object_kind : Kernel → ℕ → Option KernelObjectKind
object_kind k id = do o ← if_alive (get_elem? k.objects id); some o.kind

-- The object after `revoke`: the generation is a u64 and wraps.
abbrev pub revoked_object : Bool → KernelObject → KernelObject
revoked_object destroy o = record o {
  generation = u64 (o.generation + 1);
  alive = if destroy then false else o.alive;
}

-- The object list with the object found under `id` bumped; an unknown id changes nothing.
abbrev pub bump_found : List KernelObject → ℕ → Bool → Option KernelObject → List KernelObject
bump_found objects id destroy none = objects
bump_found objects id destroy (some o) = set objects id (revoked_object destroy o)

unfoldable pub revoke : Kernel → ℕ → Bool → Kernel
revoke k id destroy = audited (record k { objects = bumped }) (AuditEvent.revoke id)
  where
    bumped : List KernelObject
    bumped = bump_found k.objects id destroy (get_elem? k.objects id)

-- `.get(object_id).map(|o| o.generation).unwrap_or(0)`
abbrev pub generation_or_zero : Option KernelObject → ℕ
generation_or_zero none = 0
generation_or_zero (some o) = o.generation

abbrev pub generation_of : List KernelObject → ℕ → ℕ
generation_of objects id = generation_or_zero (get_elem? objects id)

-- `CapabilityTable::grant`: the kernel, the table and the new capability's id.
unfoldable pub grant : Kernel → CapabilityTable → ℕ → Rights → Kernel × CapabilityTable × ℕ
grant k table id rights =
    (audited k (AuditEvent.grant id rights), table ++ some cap ∷ [], u32 (length table))
  where
    cap : Capability
    cap = record { object_id = id; rights = rights; generation = generation_of k.objects id }

-- `.get(cap_id).and_then(|s| *s)`
abbrev pub slot_of : CapabilityTable → ℕ → Option Capability
slot_of table id = get_elem? table id >>= λ s. s

-- The `match` on the object's current generation, `none` for one that is gone or dead.
pub check_generation : Option KernelObject → Capability → Rights → Result CapError Capability
check_generation none cap required = err revoked
check_generation (some o) cap required =
    if o.generation == cap.generation
    then if contains cap.rights required then ok cap else err insufficient_rights
    else err revoked

pub check_slot : Kernel → Option Capability → Rights → Result CapError Capability
unfolding check_generation
check_slot k none required = err no_such_capability
check_slot k (some cap) required =
    check_generation (if_alive (get_elem? k.objects cap.object_id)) cap required

-- Every refusal is recorded.
abbrev pub audit_denial {ℓ} :
    {A : Type ℓ} → Kernel → ℕ → Result CapError A → Kernel × Result CapError A
audit_denial k id (ok a) = (k, ok a)
audit_denial k id (err e) = (audited k (AuditEvent.denied id), err e)

-- `CapabilityTable::resolve`
unfoldable pub resolve : Kernel → CapabilityTable → ℕ → Rights → Kernel × Result CapError Capability
unfolding check_slot
resolve k table id required = audit_denial k id (check_slot k (slot_of table id) required)

abbrev pub DeriveResult : Type 0
DeriveResult = Kernel × CapabilityTable × Result CapError ℕ

-- The tail of `derive`, after `resolve(source_cap_id, GRANT)`.
unfoldable pub derive_from :
    Rights → CapabilityTable → Kernel × Result CapError Capability → DeriveResult
derive_from requested target (k, err e) = (k, target, err e)
derive_from requested target (k, ok source) =
    if contains source.rights requested
    then (
      audited k (AuditEvent.derive source.object_id requested),
      target ++ some (record source { rights = requested }) ∷ [],
      ok (u32 (length target)),
    )
    else (k, target, err attenuation_violation)

-- `CapabilityTable::derive`: `table` is the source's, and `target` gets the new capability.
unfoldable pub derive : Kernel → CapabilityTable → ℕ → Rights → CapabilityTable → DeriveResult
unfolding derive_from
derive k table id requested target = derive_from requested target (resolve k table id grant_right)

-- `derive_self`: the source is copied before the table changes, so source and target may be one.
unfoldable pub derive_self : Kernel → CapabilityTable → ℕ → Rights → DeriveResult
unfolding derive
derive_self k table id requested = derive k table id requested table
