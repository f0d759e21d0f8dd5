-- ===== src/Base/Bits.antt =====
-- Laws of the native bitwise `and` at variables, from its definition on binary digits.
use Prim.Native.Nat.{ℕ, zero, suc, ◌+◌, ◌-◌, ◌*◌, ◌/◌, ◌%◌, ◌^◌, ◌<◌, min, bit_and, bit_and-bitwise}
use mathlib.Core.Path.{◌≡◌, ap, ap₂}
use mathlib.Core.WellFounded.{Acc, WellFounded, induction}
use native.Mathlib.Omega.{arith}
use agentic_os.Base.Digits.{bitwise-halves}
use native.Mathlib.Nat.{pow-suc, one-le-pow}

acc_below : (k n : ℕ) → n < k → Acc ◌<◌ n
acc_below zero n h = elim h [ ]
acc_below (suc k) n h = Acc.intro n (λ m hm. acc_below k m (omega arith))

pub lt_wf : WellFounded ◌<◌
lt_wf = record { apply = λ n. acc_below (suc n) n (omega arith) }

pub zero-bit_and : (b : ℕ) → bit_and 0 b ≡ 0
zero-bit_and b = bit_and-bitwise 0 b

-- The law of the lowest digit.
pub bit_and_halves : (a b : ℕ) → bit_and a b ≡ bit_and (a / 2) (b / 2) * 2 + min (a % 2) (b % 2)
bit_and_halves zero b = omega (arith, zero-bit_and (b / 2), zero-bit_and b)
bit_and_halves (suc x) b =
    let top = bit_and-bitwise (suc x) b in
    let low = bit_and-bitwise (suc x / 2) (b / 2) in
    omega (arith, bitwise-halves (λ y. zero) min x b, low, top)

bit_and_half : (a b : ℕ) → bit_and a b / 2 ≡ bit_and (a / 2) (b / 2)
bit_and_half a b = omega (arith, bit_and_halves a b)

bit_and_parity : (a b : ℕ) → bit_and a b % 2 ≡ min (a % 2) (b % 2)
bit_and_parity a b = omega (arith, bit_and_halves a b)

abbrev Assoc : ℕ → Type 0
Assoc a = (b c : ℕ) → bit_and (bit_and a b) c ≡ bit_and a (bit_and b c)

Assoc-step : (a : ℕ) → ((m : ℕ) → m < a → Assoc m) → Assoc a
Assoc-step zero ih b c =
    omega
      (arith, zero-bit_and (bit_and b c), ap (λ x. bit_and x c) (zero-bit_and b), zero-bit_and c)
Assoc-step (suc a) ih b c = omega (
  arith,
  bit_and_halves (bit_and (suc a) b) c,
  bit_and_halves (suc a) (bit_and b c),
  bit_and_parity (suc a) b,
  bit_and_parity b c,
  ap (λ x. bit_and x (c / 2)) (bit_and_half (suc a) b),
  ap (λ x. bit_and (suc a / 2) x) (bit_and_half b c),
  ih (suc a / 2) (omega arith) (b / 2) (c / 2),
)

pub bit_and_assoc : (a b c : ℕ) → bit_and (bit_and a b) c ≡ bit_and a (bit_and b c)
bit_and_assoc a = induction lt_wf {C = Assoc} a Assoc-step

abbrev SelfAnd : ℕ → Type 0
SelfAnd a = bit_and a a ≡ a

self_step : (a : ℕ) → ((m : ℕ) → m < a → SelfAnd m) → SelfAnd a
self_step zero ih = zero-bit_and 0
self_step (suc a) ih = omega (arith, bit_and_halves (suc a) (suc a), ih (suc a / 2) (omega arith))

pub bit_and_self : (a : ℕ) → bit_and a a ≡ a
bit_and_self a = induction lt_wf {C = SelfAnd} a self_step

abbrev ZeroAnd : ℕ → Type 0
ZeroAnd a = bit_and a 0 ≡ 0

zero_step : (a : ℕ) → ((m : ℕ) → m < a → ZeroAnd m) → ZeroAnd a
zero_step zero ih = zero-bit_and 0
zero_step (suc a) ih = omega (arith, bit_and_halves (suc a) 0, ih (suc a / 2) (omega arith))

pub bit_and-zero : (a : ℕ) → bit_and a 0 ≡ 0
bit_and-zero a = induction lt_wf {C = ZeroAnd} a zero_step

abbrev Comm : ℕ → Type 0
Comm a = (b : ℕ) → bit_and a b ≡ bit_and b a

Comm-step : (a : ℕ) → ((m : ℕ) → m < a → Comm m) → Comm a
Comm-step zero ih b = omega (arith, zero-bit_and b, bit_and-zero b)
Comm-step (suc a) ih b = omega (
  arith,
  bit_and_halves (suc a) b,
  bit_and_halves b (suc a),
  ih (suc a / 2) (omega arith) (b / 2),
)

pub bit_and_comm : (a b : ℕ) → bit_and a b ≡ bit_and b a
bit_and_comm a = induction lt_wf {C = Comm} a Comm-step

mask_half : (k : ℕ) → (2 ^ suc k - 1) / 2 ≡ 2 ^ k - 1
mask_half k = omega (arith, pow-suc 2 k, one-le-pow k 2)

double : (q k : ℕ) → q * 2 ^ suc k ≡ q * 2 ^ k * 2
double q k = omega (arith, ap (λ (t : ℕ). q * t) (pow-suc 2 k))

ones_low : (k q r : ℕ) → r < 2 ^ k → bit_and (q * 2 ^ k + r) (2 ^ k - 1) ≡ r
ones_low zero q r h = omega (arith, bit_and-zero (q * 2 ^ 0 + r))
ones_low (suc k) q r h =
    let half : (q * 2 ^ suc k + r) / 2 ≡ q * 2 ^ k + r / 2 = omega (arith, double q k) in
    omega (
      arith,
      bit_and_halves (q * 2 ^ suc k + r) (2 ^ suc k - 1),
      ap₂ bit_and half (mask_half k),
      double q k,
      pow-suc 2 k,
      one-le-pow k 2,
      ones_low k q (r / 2) (omega (arith, pow-suc 2 k)),
    )

-- Masking with `k` ones takes the remainder by `2 ^ k`.
pub bit_and-ones : (k a : ℕ) → bit_and a (2 ^ k - 1) ≡ a % 2 ^ k
bit_and-ones k a = ground (arith, one-le-pow k 2, ones_low k (a / 2 ^ k) (a % 2 ^ k))
