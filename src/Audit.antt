-- ===== src/Audit.antt =====
-- The in-memory audit log, kernel_rs/src/audit.rs: a bounded deque of numbered records. The thread
-- that acts is an argument, as `thread::current_id()` is read at the call.
pub mod Retention
mod Tests
use mathlib.Core.List.{reverse}
use agentic_os.Base.{
  ℕ, ◌+◌, ◌-◌, List, [], ◌∷◌, ◌++◌, Bool, length, take, drop, leb, ◌==◌, u64, if◌then◌else◌,
}

abbrev pub max_records : ℕ
max_records = 4096

pub data AuditEvent : Type 0 where
  grant : ℕ → ℕ → AuditEvent
  derive : ℕ → ℕ → AuditEvent
  revoke : ℕ → AuditEvent
  denied : ℕ → AuditEvent
  ipc_send : ℕ → AuditEvent
  ipc_receive : ℕ → AuditEvent
  interrupt_delivered : ℕ → AuditEvent
  interrupt_acknowledged : ℕ → AuditEvent
  policy_denied : ℕ → AuditEvent
  iommu_fault : ℕ → ℕ → AuditEvent
  process_crashed : ℕ → ℕ → AuditEvent
  process_restarted : ℕ → ℕ → AuditEvent
  process_quarantined : ℕ → AuditEvent
  manifest_denied : ℕ → AuditEvent
  agent_ui_action : ℕ → ℕ → AuditEvent

pub record AuditRecord : Type 0 where
  pub seq : ℕ
  pub actor_tid : ℕ
  pub event : AuditEvent

-- `LOG`, oldest record first, and `NEXT_SEQ`.
pub record AuditLog : Type 0 where
  pub records : List AuditRecord
  pub next_seq : ℕ

abbrev pub empty_log : AuditLog
empty_log = record { records = []; next_seq = 0 }

-- `audit::record`
unfoldable pub record_event : AuditLog → ℕ → AuditEvent → AuditLog
record_event l tid event = record { records = room ++ entry ∷ []; next_seq = u64 (l.next_seq + 1) }
  where
    room : List AuditRecord
    room = if leb max_records (length l.records) then drop 1 l.records else l.records

    entry : AuditRecord
    entry = record { seq = l.next_seq; actor_tid = tid; event = event }

unfoldable pub last_n : AuditLog → ℕ → List AuditRecord
last_n l n = drop (length l.records - n) l.records

-- The filter of `records_by_actor`.
pub by_actor : ℕ → List AuditRecord → List AuditRecord
by_actor tid [] = []
by_actor tid (r ∷ rs) = let rest = by_actor tid rs in if r.actor_tid == tid then r ∷ rest else rest

-- Newest first, at most `max` of them.
pub records_by_actor : AuditLog → ℕ → ℕ → List AuditRecord
unfolding by_actor
records_by_actor l tid max = take max (by_actor tid (reverse l.records))
