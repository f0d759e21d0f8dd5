-- ===== src/AuditRing/Tests.antt =====
-- Runs of the definitions of kernel_common/src/audit_ring.rs, and examples of the theorems about them.
use agentic_os.Base.{ℕ, ◌≡◌, min, List, [], ◌∷◌, some, true, length, take, replicate, arith}
use agentic_os.AuditRing.{
  RingHeader, max_message_len, build_header, read_header, is_initialized, build_record, read_record,
}
use agentic_os.AuditRing.Blocks.{read_header-build_header, read_record-build_record}

abbrev block : List ℕ
block = replicate 32 7

abbrev header : RingHeader
header = record { next_write_index = 3; total_written_count = 0x100000007 }

read_header-build_header_example :
    (b' : List ℕ) × (build_header block header ≡ some b')
    × (length b' ≡ length block)
    × (is_initialized b' ≡ some true)
    × (read_header b' ≡ some header)
read_header-build_header_example =
    read_header-build_header block header (omega arith) (omega arith) (omega arith)

abbrev message : List ℕ
message = 104 ∷ 105 ∷ 33 ∷ []

read_record-build_record_example :
    (b' : List ℕ) × (build_record block 9 message ≡ some b')
    × (length b' ≡ length block)
    × (read_record b' 2 ≡ some (9, take (min (min (length message) max_message_len) 2) message))
read_record-build_record_example =
    read_record-build_record block 9 message 2 (omega arith) (omega arith)
