-- ===== src/AuditRing/Blocks.antt =====
-- The header and the records of kernel_common/src/audit_ring.rs are read back as they were built.
use agentic_os.Base.{
  ℕ, zero, suc, ◌+◌, ◌^◌, ◌≡◌, ◌≤◌, ◌<◌, inl, refl, ap, min, List, [], ◌∷◌, some, u32, length, take,
  true, arith,
}
use agentic_os.FileSystem.Records.{vcopy, zeros}
use agentic_os.AuditRing.{
  magic, max_message_len, le_bytes, copy_out, wu32, wu64, ru32, ru64, RingHeader, read_header,
  build_header, build_record, read_record, is_initialized,
}
use agentic_os.FileSystem.Copies.{Holds, Copied, Holds-agree, vcopy-Copied, length-zeros}
use agentic_os.AuditRing.RoundTrip.{read_le-Holds, length-le_bytes}

-- `vzero` of a whole block.
zeroed :
    (b : List ℕ) → (b' : List ℕ) × (vcopy b 0 (zeros (length b)) ≡ some b') × (length b' ≡ length b)
zeroed b =
    let (b', e, c) = vcopy-Copied (zeros (length b)) b 0 (omega (arith, length-zeros (length b))) in
    (b', e, c.0)

-- Bytes that were there stay when others are copied to another place.
kept :
    (b b' : List ℕ) (off : ℕ) (vs : List ℕ) (at : ℕ) (us : List ℕ)
    → Copied b off vs b'
    → at + length us ≤ off
    → Holds b at us
    → Holds b' at us
kept b b' off vs at us c h held =
    Holds-agree b b' at us (λ i low high. c.2 i (inl (omega arith))) held

-- Building a header in any block of 16 bytes or more succeeds, and the block is then recognised and
-- read back as that header.
pub read_header-build_header :
    (b : List ℕ) (h : RingHeader)
    → 16 ≤ length b
    → h.next_write_index < 2 ^ 32
    → h.total_written_count < 2 ^ 64
    → (b' : List ℕ) × (build_header b h ≡ some b')
      × (length b' ≡ length b)
      × (is_initialized b' ≡ some true)
      × (read_header b' ≡ some h)
unfolding build_header read_header is_initialized wu32 wu64 ru32 ru64
read_header-build_header b h size small big =
    let (b0, e0, l0) = zeroed b in
    let m = le_bytes 4 magic in
    let n = le_bytes 4 h.next_write_index in
    let k = le_bytes 8 h.total_written_count in
    let lm = length-le_bytes 4 magic in
    let ln = length-le_bytes 4 h.next_write_index in
    let lk = length-le_bytes 8 h.total_written_count in
    let (b1, e1, c1) = vcopy-Copied m b0 0 (omega arith) in
    let (b2, e2, c2) = vcopy-Copied n b1 4 (omega (arith, c1.0)) in
    let (b3, e3, c3) = vcopy-Copied k b2 8 (omega (arith, c1.0, c2.0)) in
    let held_m = kept b2 b3 8 k 0 m c3 (omega arith) (kept b1 b2 4 n 0 m c2 (omega arith) c1.1) in
    let held_n = kept b2 b3 8 k 4 n c3 (omega arith) c2.1 in
    (
      b3,
      rw e0 (rw e1 (rw e2 e3)),
      omega (arith, c1.0, c2.0, c3.0),
      rw (read_le-Holds 4 magic b3 0 (omega arith) held_m) refl,
      rw (read_le-Holds 4 h.next_write_index b3 4 small held_n)
          (rw (read_le-Holds 8 h.total_written_count b3 8 big c3.1) refl),
    )

length-take : (n : ℕ) (xs : List ℕ) → n ≤ length xs → length (take n xs) ≡ n
length-take zero xs h = refl
length-take (suc n) [] h = absurd (omega arith)
length-take (suc n) (x ∷ xs) h = ap suc (length-take n xs (omega arith))

copy_out-take :
    (xs : List ℕ) (b : List ℕ) (off n k : ℕ)
    → k ≤ n
    → n ≤ length xs
    → Holds b off (take n xs)
    → copy_out b off k ≡ some (take k xs)
unfolding copy_out
copy_out-take xs b off n zero h g held = refl
copy_out-take xs b off zero (suc k) h g held = absurd (omega arith)
copy_out-take [] b off (suc n) (suc k) h g held = absurd (omega arith)
copy_out-take (x ∷ xs) b off (suc n) (suc k) h g (e, held) =
    rw e (rw (copy_out-take xs b (off + 1) n k (omega arith) (omega arith) held) refl)

-- A record built in a block with room for its message is read back into a slice of any length as the
-- same sequence number and as much of the message as fits: at most 512 bytes and at most the slice.
pub read_record-build_record :
    (b : List ℕ) (seq : ℕ) (message : List ℕ) (room : ℕ)
    → 12 + min (length message) max_message_len ≤ length b
    → seq < 2 ^ 64
    → (b' : List ℕ) × (build_record b seq message ≡ some b')
      × (length b' ≡ length b)
      × (read_record b' room
          ≡ some (seq, take (min (min (length message) max_message_len) room) message))
unfolding build_record read_record wu32 wu64 ru32 ru64
read_record-build_record b seq message room size big =
    let (b0, e0, l0) = zeroed b in
    let len = min (length message) max_message_len in
    let s = le_bytes 8 seq in
    let n = le_bytes 4 (u32 len) in
    let msg = take len message in
    let ls = length-le_bytes 8 seq in
    let ln = length-le_bytes 4 (u32 len) in
    let lm = length-take len message (omega arith) in
    let (b1, e1, c1) = vcopy-Copied s b0 0 (omega arith) in
    let (b2, e2, c2) = vcopy-Copied n b1 8 (omega (arith, c1.0)) in
    let (b3, e3, c3) = vcopy-Copied msg b2 12 (omega (arith, c1.0, c2.0)) in
    let held_s =
      kept b2 b3 12 msg 0 s c3 (omega arith) (kept b1 b2 8 n 0 s c2 (omega arith) c1.1) in
    let held_n = kept b2 b3 12 msg 8 n c3 (omega arith) c2.1 in
    let same : min (min (u32 len) max_message_len) room ≡ min len room = omega arith in
    (
      b3,
      rw e0 (rw e1 (rw e2 e3)),
      omega (arith, c1.0, c2.0, c3.0),
      rw (read_le-Holds 8 seq b3 0 big held_s) (
          rw (read_le-Holds 4 (u32 len) b3 8 (omega arith) held_n) (
            rw same (
              rw (copy_out-take message b3 12 len (min len room) (omega arith) (omega arith) c3.1)
                refl))),
    )
