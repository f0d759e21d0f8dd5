-- ===== src/Base/NthBit.antt =====
-- Single binary digits of a number, and what the bitwise operations and the test of a mask see of
-- them.
use Prim.Native.Nat.{ℕ, zero, suc, ◌*◌, ◌/◌, ◌%◌, ◌^◌, ◌≤◌, max, bit_and, bit_or}
use mathlib.Core.Path.{◌≡◌, ap}
use mathlib.Core.Bool.{not}
use native.Mathlib.Omega.{arith}
use native.Mathlib.Nat.{pow-suc, one-le-pow}
use agentic_os.Base.Tests.{◌==◌, if◌then◌else◌}
use agentic_os.Base.Bits.{bit_and_halves, bit_and-zero}
use agentic_os.Base.Or.{bit_or_halves}

pub nth_bit : ℕ → ℕ → ℕ
nth_bit b zero = b % 2
nth_bit b (suc k) = nth_bit (b / 2) k

pub nth_bit-le-one : (b k : ℕ) → nth_bit b k ≤ 1
unfolding nth_bit
nth_bit-le-one b zero = omega arith
nth_bit-le-one b (suc k) = nth_bit-le-one (b / 2) k

half_pow : (k : ℕ) → 2 ^ suc k / 2 ≡ 2 ^ k
half_pow k = omega (arith, pow-suc 2 k)

-- A mask of one digit keeps that digit.
pub bit_and-pow : (b k : ℕ) → bit_and b (2 ^ k) ≡ nth_bit b k * 2 ^ k
unfolding nth_bit
bit_and-pow b zero = omega (arith, bit_and_halves b 1, bit_and-zero (b / 2))
bit_and-pow b (suc k) = omega (
  arith,
  bit_and_halves b (2 ^ suc k),
  ap (bit_and (b / 2)) (half_pow k),
  bit_and-pow (b / 2) k,
  pow-suc 2 k,
  ap (λ (p : ℕ). nth_bit (b / 2) k * p) (pow-suc 2 k),
)

pub nth_bit-bit_or : (a b k : ℕ) → nth_bit (bit_or a b) k ≡ max (nth_bit a k) (nth_bit b k)
unfolding nth_bit
nth_bit-bit_or a b zero = omega (arith, bit_or_halves a b)
nth_bit-bit_or a b (suc k) =
    let half : bit_or a b / 2 ≡ bit_or (a / 2) (b / 2) = omega (arith, bit_or_halves a b) in
    omega (arith, ap (λ x. nth_bit x k) half, nth_bit-bit_or (a / 2) (b / 2) k)

zero_bits : (k : ℕ) → nth_bit 0 k ≡ 0
unfolding nth_bit
zero_bits zero = omega arith
zero_bits (suc k) = zero_bits k

pub nth_bit-pow : (j k : ℕ) → nth_bit (2 ^ j) k ≡ (if j == k then 1 else 0)
unfolding nth_bit
nth_bit-pow zero zero = omega arith
nth_bit-pow zero (suc k) = ground (arith, zero_bits k)
nth_bit-pow (suc j) zero = ground (arith, pow-suc 2 j)
nth_bit-pow (suc j) (suc k) = ground (arith, ap (λ x. nth_bit x k) (half_pow j), nth_bit-pow j k)

-- The test of a digit by its mask.
pub has_digit : (b k : ℕ) → not (bit_and b (2 ^ k) == 0) ≡ (nth_bit b k == 1)
has_digit b k = ground (arith, bit_and-pow b k, nth_bit-le-one b k, one-le-pow k 2)
