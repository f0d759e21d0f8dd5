-- ===== src/Audit/Tests.antt =====
-- The retention theorem at a concrete input.
use agentic_os.Base.{ℕ, ◌≡◌, List, [], ◌∷◌, arith}
use agentic_os.Audit.{AuditEvent, empty_log, max_records}
use agentic_os.Audit.Retention.{newest, history, record_all, record_all_retains}

abbrev two_events : List (ℕ × AuditEvent)
two_events = (3, AuditEvent.revoke 1) ∷ (4, AuditEvent.denied 2) ∷ []

record_all_retains_example :
    (record_all empty_log two_events).records ≡ newest max_records (history 0 two_events)
record_all_retains_example = record_all_retains two_events (omega arith)
