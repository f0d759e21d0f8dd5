-- ===== src/AuditRing.antt =====
-- The audit ring on disk, kernel_common/src/audit_ring.rs: a header block and record blocks of bytes.
-- An index out of bounds, which panics, is `none`.
pub mod RoundTrip
pub mod Blocks
mod Tests
use agentic_os.Base.{
  ℕ, zero, suc, ◌+◌, ◌*◌, ◌/◌, ◌%◌, ◌^◌, min, List, [], ◌∷◌, Bool, Option, none, some, ◌>>=◌, ◌==◌,
  u32, length, get_elem?, take, drop, leb, if◌then◌else◌,
}
use agentic_os.FileSystem.Records.{vcopy, zeros}

abbrev pub magic : ℕ
magic = 0xA0D170C5

abbrev pub ring_slots : ℕ
ring_slots = 4

abbrev pub max_message_len : ℕ
max_message_len = 512

-- The `n` lowest bytes of a number, lowest first.
unfoldable pub le_bytes : ℕ → ℕ → List ℕ
le_bytes zero v = []
le_bytes (suc n) v = v % 256 ∷ le_bytes n (v / 256)

-- `wu32` and `wu64`: one volatile write for each byte.
unfoldable pub wu32 : List ℕ → ℕ → ℕ → Option (List ℕ)
unfolding le_bytes
wu32 b off v = vcopy b off (le_bytes 4 v)

unfoldable pub wu64 : List ℕ → ℕ → ℕ → Option (List ℕ)
unfolding le_bytes
wu64 b off v = vcopy b off (le_bytes 8 v)

-- `from_le_bytes` of the `n` bytes at an offset.
unfoldable pub read_le : List ℕ → ℕ → ℕ → Option ℕ
read_le b off zero = some 0
read_le b off (suc n) =
    let rest = read_le b (off + 1) n in
    get_elem? b off >>= λ low. rest >>= λ high. some (low + 256 * high)

unfoldable pub ru32 : List ℕ → ℕ → Option ℕ
unfolding read_le
ru32 b off = read_le b off 4

unfoldable pub ru64 : List ℕ → ℕ → Option ℕ
unfolding read_le
ru64 b off = read_le b off 8

unfoldable pub is_initialized : List ℕ → Option Bool
unfolding ru32
is_initialized header_block = ru32 header_block 0 >>= λ m. some (m == magic)

pub record RingHeader : Type 0 where
  pub next_write_index : ℕ
  pub total_written_count : ℕ

unfoldable pub read_header : List ℕ → Option RingHeader
unfolding ru32 ru64
read_header header_block = do
  index ← ru32 header_block 4
  count ← ru64 header_block 8
  some (record { next_write_index = index; total_written_count = count })

unfoldable pub build_header : List ℕ → RingHeader → Option (List ℕ)
unfolding wu32 wu64
build_header b h = do
  b0 ← vcopy b 0 (zeros (length b))
  b1 ← wu32 b0 0 magic
  b2 ← wu32 b1 4 h.next_write_index
  wu64 b2 8 h.total_written_count

unfoldable pub build_record : List ℕ → ℕ → List ℕ → Option (List ℕ)
unfolding wu32 wu64
build_record b seq message = do
  b0 ← vcopy b 0 (zeros (length b))
  b1 ← wu64 b0 0 seq
  let len = min (length message) max_message_len
  b2 ← wu32 b1 8 (u32 len)
  vcopy b2 12 (take len message)

-- The copy of `n` bytes at an offset.
unfoldable pub copy_out : List ℕ → ℕ → ℕ → Option (List ℕ)
copy_out b off zero = some []
copy_out b off (suc n) =
    let rest = copy_out b (off + 1) n in get_elem? b off >>= λ v. rest >>= λ vs. some (v ∷ vs)

-- `read_record` into a slice with the given room: the sequence number and the bytes written to its
-- front.
unfoldable pub read_record : List ℕ → ℕ → Option (ℕ × List ℕ)
unfolding ru32 ru64 copy_out
read_record record_block room = do
  seq ← ru64 record_block 0
  stored ← ru32 record_block 8
  let len = min (min stored max_message_len) room
  bytes ← copy_out record_block 12 len
  some (seq, bytes)
