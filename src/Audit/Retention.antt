-- ===== src/Audit/Retention.antt =====
-- What the bounded log of kernel_rs/src/audit.rs retains of the history of all events.
use native.Mathlib.Decide.{dec_le}
use agentic_os.Base.{
  ℕ, suc, ◌+◌, ◌-◌, ◌≤◌, ◌<◌, ◌^◌, List, [], ◌∷◌, ◌++◌, ◌≡◌, refl, sym, ◌∙◌, ap, arith, length,
  drop, leb, if◌then◌else◌, length-append, length-drop, drop-append, drop-one-drop, true, false,
}
use mathlib.Core.List.{append_assoc, append-nil}
use agentic_os.Audit.{AuditEvent, AuditRecord, AuditLog, empty_log, record_event, max_records}

-- The newest `m` entries of a history, oldest first.
abbrev pub newest : ℕ → List AuditRecord → List AuditRecord
newest m h = drop (length h - m) h

-- Every record that a sequence of events causes, numbered from `seq` on, nothing dropped.
abbrev pub history : ℕ → List (ℕ × AuditEvent) → List AuditRecord
history seq [] = []
history seq ((tid, e) ∷ es) =
    (record { seq = seq; actor_tid = tid; event = e }) ∷ history (seq + 1) es

unfoldable pub record_all : AuditLog → List (ℕ × AuditEvent) → AuditLog
record_all l [] = l
record_all l ((tid, e) ∷ es) = record_all (record_event l tid e) es

newest_all : (m : ℕ) (h : List AuditRecord) → length h ≤ m → newest m h ≡ h
newest_all m h p = let e : length h - m ≡ 0 = omega arith in rw e

-- One more record moves the window on by one.
newest-snoc_full :
    (m : ℕ) (h : List AuditRecord) (r : AuditRecord)
    → 0 < m
    → m ≤ length h
    → drop 1 (newest m h) ++ r ∷ [] ≡ newest m (h ++ r ∷ [])
newest-snoc_full m h r pos full =
    ap (λ t. t ++ r ∷ []) (drop-one-drop (length h - m) h)
    ∙ sym (drop-append (suc (length h - m)) h (r ∷ []) (omega arith))
    ∙ ap (λ n. drop n (h ++ r ∷ [])) shift
  where
    shift : suc (length h - m) ≡ length (h ++ r ∷ []) - m
    shift = omega (arith, length-append h (r ∷ []))

newest-snoc :
    (m : ℕ) (h : List AuditRecord) (r : AuditRecord)
    → 0 < m
    → (if leb m (length (newest m h)) then drop 1 (newest m h) else newest m h) ++ r ∷ []
      ≡ newest m (h ++ r ∷ [])
newest-snoc m h r pos = elim (dec_le m (length h)) [
  | yes full ↦ rw (full_test full) (newest-snoc_full m h r pos full)
  | no room ↦
      rw (room_test (omega arith), newest_all m h (omega arith))
        (sym (newest_all m (h ++ r ∷ []) (omega (arith, length-append h (r ∷ [])))))
]
  where
    size : length (newest m h) ≡ length h - (length h - m)
    size = length-drop (length h - m) h

    full_test : m ≤ length h → leb m (length (newest m h)) ≡ true
    full_test p = let q : length (newest m h) ≡ m = omega (arith, size) in ground arith

    room_test : length h < m → leb m (length (newest m h)) ≡ false
    room_test p = let q : length (newest m h) < m = omega (arith, size) in ground arith

record_event-newest :
    (h : List AuditRecord) (l : AuditLog) (tid : ℕ) (e : AuditEvent)
    → l.records ≡ newest max_records h
    → (record_event l tid e).records
      ≡ newest max_records (h ++ (record { seq = l.next_seq; actor_tid = tid; event = e }) ∷ [])
unfolding record_event
record_event-newest h l tid e eq = rw eq (newest-snoc max_records h _ (omega arith))

pub next_seq-record_event :
    (l : AuditLog) (tid : ℕ) (e : AuditEvent)
    → l.next_seq + 1 < 2 ^ 64
    → (record_event l tid e).next_seq ≡ l.next_seq + 1
unfolding record_event
next_seq-record_event l tid e h = omega arith

record_all-newest :
    (es : List (ℕ × AuditEvent)) (h : List AuditRecord) (l : AuditLog)
    → l.records ≡ newest max_records h
    → l.next_seq + length es < 2 ^ 64
    → (record_all l es).records ≡ newest max_records (h ++ history l.next_seq es)
unfolding record_all
record_all-newest [] h l eq room = rw append-nil eq
record_all-newest ((tid, e) ∷ es) h l eq room =
    record_all-newest es (h ++ entry ∷ []) (record_event l tid e) (record_event-newest h l tid e eq)
      (omega (arith, next))
    ∙ ap (newest max_records) (append_assoc h (entry ∷ []) _)
    ∙ ap (λ n. newest max_records (h ++ entry ∷ history n es)) next
  where
    entry : AuditRecord
    entry = record { seq = l.next_seq; actor_tid = tid; event = e }

    next : (record_event l tid e).next_seq ≡ l.next_seq + 1
    next = next_seq-record_event l tid e (omega arith)

-- After any sequence of fewer than 2 ^ 64 events from boot, the log holds exactly the newest
-- `max_records` records of the whole history, in order and numbered from 0 without gaps.
pub record_all_retains :
    (es : List (ℕ × AuditEvent))
    → length es < 2 ^ 64
    → (record_all empty_log es).records ≡ newest max_records (history 0 es)
record_all_retains es room = record_all-newest es [] empty_log refl (omega arith)
