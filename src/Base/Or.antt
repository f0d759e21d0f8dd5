-- ===== src/Base/Or.antt =====
-- The native bitwise `or` at variables, for numbers put together from disjoint fields.
use Prim.Native.Nat.{ℕ, zero, suc, ◌+◌, ◌*◌, ◌/◌, ◌%◌, ◌^◌, ◌<◌, max, bit_or, bit_or-bitwise}
use mathlib.Core.Path.{◌≡◌, ap}
use mathlib.Core.WellFounded.{induction}
use native.Mathlib.Omega.{arith}
use native.Mathlib.Nat.{pow-suc}
use agentic_os.Base.Digits.{bitwise-halves}
use agentic_os.Base.Bits.{lt_wf}

zero-bit_or : (b : ℕ) → bit_or 0 b ≡ b
zero-bit_or b = bit_or-bitwise 0 b

-- The law of the lowest digit.
pub bit_or_halves : (a b : ℕ) → bit_or a b ≡ bit_or (a / 2) (b / 2) * 2 + max (a % 2) (b % 2)
bit_or_halves zero b = omega (arith, zero-bit_or (b / 2), zero-bit_or b)
bit_or_halves (suc x) b =
    let top = bit_or-bitwise (suc x) b in
    let low = bit_or-bitwise (suc x / 2) (b / 2) in
    omega (arith, bitwise-halves (λ y. y) max x b, low, top)

abbrev OrZero : ℕ → Type 0
OrZero a = bit_or a 0 ≡ a

OrZero-step : (a : ℕ) → ((m : ℕ) → m < a → OrZero m) → OrZero a
OrZero-step zero ih = zero-bit_or 0
OrZero-step (suc a) ih = omega (arith, bit_or_halves (suc a) 0, ih (suc a / 2) (omega arith))

pub bit_or-zero : (a : ℕ) → bit_or a 0 ≡ a
bit_or-zero a = induction lt_wf {C = OrZero} a OrZero-step

double : (q k : ℕ) → q * 2 ^ suc k ≡ q * 2 ^ k * 2
double q k = omega (arith, ap (λ (t : ℕ). q * t) (pow-suc 2 k))

-- A field below `2 ^ k` beside a multiple of `2 ^ k`.
pub bit_or-low : (k q r : ℕ) → r < 2 ^ k → bit_or (q * 2 ^ k) r ≡ q * 2 ^ k + r
bit_or-low zero q zero h = omega (arith, bit_or-zero (q * 2 ^ 0))
bit_or-low zero q (suc r) h = absurd (omega arith)
bit_or-low (suc k) q r h =
    let half : (q * 2 ^ suc k) / 2 ≡ q * 2 ^ k = omega (arith, double q k) in
    omega (
      arith,
      bit_or_halves (q * 2 ^ suc k) r,
      ap (λ x. bit_or x (r / 2)) half,
      double q k,
      bit_or-low k q (r / 2) (omega (arith, pow-suc 2 k)),
    )
