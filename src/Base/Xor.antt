-- ===== src/Base/Xor.antt =====
-- The native bitwise exclusive `or` at variables, and products by an odd number on 64 bits.
use Prim.Native.Nat.{ℕ, zero, suc, ◌+◌, ◌*◌, ◌/◌, ◌%◌, ◌^◌, ◌<◌, differ, bit_xor, bit_xor-bitwise}
use mathlib.Core.Path.{◌≡◌, refl}
use native.Mathlib.Omega.{arith}
use native.Mathlib.Nat.{pow-suc}
use agentic_os.Base.Digits.{bitwise-halves}

zero-bit_xor : (b : ℕ) → bit_xor 0 b ≡ b
zero-bit_xor b = bit_xor-bitwise 0 b

differ-digits : (x y : ℕ) → x < 2 → y < 2 → differ x y ≡ (x + y) % 2
differ-digits zero y h g = omega arith
differ-digits (suc zero) zero h g = refl
differ-digits (suc zero) (suc zero) h g = refl
differ-digits (suc zero) (suc (suc y)) h g = absurd (omega arith)
differ-digits (suc (suc x)) y h g = absurd (omega arith)

-- The law of the lowest digit.
bit_xor_halves : (a b : ℕ) → bit_xor a b ≡ bit_xor (a / 2) (b / 2) * 2 + (a % 2 + b % 2) % 2
bit_xor_halves zero b = omega (arith, zero-bit_xor (b / 2), zero-bit_xor b)
bit_xor_halves (suc x) b =
    let top = bit_xor-bitwise (suc x) b in
    let low = bit_xor-bitwise (suc x / 2) (b / 2) in
    omega (
      arith,
      bitwise-halves (λ y. y) differ x b,
      low,
      top,
      differ-digits (suc x % 2) (b % 2) (omega arith) (omega arith),
    )

pub bit_xor-lt : (w a b : ℕ) → a < 2 ^ w → b < 2 ^ w → bit_xor a b < 2 ^ w
bit_xor-lt zero zero zero h g = omega (arith, zero-bit_xor 0)
bit_xor-lt zero zero (suc b) h g = absurd (omega arith)
bit_xor-lt zero (suc a) b h g = absurd (omega arith)
bit_xor-lt (suc w) a b h g = omega (
  arith,
  bit_xor_halves a b,
  bit_xor-lt w (a / 2) (b / 2) (omega (arith, pow-suc 2 w)) (omega (arith, pow-suc 2 w)),
  pow-suc 2 w,
)

pub bit_xor-cancel_right : (w a b c : ℕ) → a < 2 ^ w → b < 2 ^ w → bit_xor a c ≡ bit_xor b c → a ≡ b
bit_xor-cancel_right zero a b c h g e = omega arith
bit_xor-cancel_right (suc w) a b c h g e =
    let ha = bit_xor_halves a c in
    let hb = bit_xor_halves b c in
    omega (
      arith,
      ha,
      hb,
      bit_xor-cancel_right w (a / 2) (b / 2) (c / 2) (omega (arith, pow-suc 2 w))
          (omega (arith, pow-suc 2 w)) (omega (arith, e, ha, hb)),
    )

pub bit_xor-cancel_left : (w a b c : ℕ) → a < 2 ^ w → b < 2 ^ w → bit_xor c a ≡ bit_xor c b → a ≡ b
bit_xor-cancel_left zero a b c h g e = omega arith
bit_xor-cancel_left (suc w) a b c h g e =
    let ha = bit_xor_halves c a in
    let hb = bit_xor_halves c b in
    omega (
      arith,
      ha,
      hb,
      bit_xor-cancel_left w (a / 2) (b / 2) (c / 2) (omega (arith, pow-suc 2 w))
          (omega (arith, pow-suc 2 w)) (omega (arith, e, ha, hb)),
    )

-- The prime of the hash is odd, and so has an inverse modulo `2 ^ 64`.
pub prime-cancel :
    (x y : ℕ)
    → x < 2 ^ 64
    → y < 2 ^ 64
    → x * 0x100000001b3 % 2 ^ 64 ≡ y * 0x100000001b3 % 2 ^ 64
    → x ≡ y
prime-cancel x y h g e = omega arith
