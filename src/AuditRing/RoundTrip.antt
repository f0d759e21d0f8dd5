-- ===== src/AuditRing/RoundTrip.antt =====
-- Round trips of kernel_common/src/audit_ring.rs: what is written to a block is read back.
use agentic_os.Base.{
  ℕ, zero, suc, ◌+◌, ◌/◌, ◌^◌, ◌≡◌, ◌<◌, refl, ap, List, [], ◌∷◌, some, length, arith,
}
use native.Mathlib.Nat.{pow-suc}
use agentic_os.FileSystem.Copies.{Holds}
use agentic_os.AuditRing.{le_bytes, read_le, copy_out}

pub read_le-Holds :
    (n v : ℕ) (b : List ℕ) (off : ℕ)
    → v < 256 ^ n
    → Holds b off (le_bytes n v)
    → read_le b off n ≡ some v
unfolding le_bytes read_le
read_le-Holds zero v b off small h = ap some (omega arith)
read_le-Holds (suc n) v b off small (e, h) =
    let rest = read_le-Holds n (v / 256) b (off + 1) (omega (arith, pow-suc 256 n)) h in
    rw e (rw rest (ap some (omega arith)))

pub copy_out-Holds :
    (vs b : List ℕ) (off : ℕ) → Holds b off vs → copy_out b off (length vs) ≡ some vs
unfolding copy_out
copy_out-Holds [] b off h = refl
copy_out-Holds (v ∷ vs) b off (e, h) = rw e (rw (copy_out-Holds vs b (off + 1) h) refl)

pub length-le_bytes : (n v : ℕ) → length (le_bytes n v) ≡ n
unfolding le_bytes
length-le_bytes zero v = refl
length-le_bytes (suc n) v = ap suc (length-le_bytes n (v / 256))
