-- ===== src/Base/Digits.antt =====
-- The recursion behind the native bitwise operations, for any operation on two digits.
use Prim.Native.Nat.{ℕ, zero, suc, ◌+◌, ◌*◌, ◌/◌, ◌%◌, ◌≤◌, digits, bitwise}
use mathlib.Core.Path.{◌≡◌, refl, sym, ◌∙◌}
use native.Mathlib.Omega.{arith}

module _ (rest : ℕ → ℕ) (digit : ℕ → ℕ → ℕ) where
  -- With no digits left, the count does not matter.
  digits-exhausted : (count b : ℕ) → digits rest digit count 0 b ≡ rest b
  digits-exhausted zero b = refl
  digits-exhausted (suc count) b = refl

  -- Any two counts that cover the first number give the same result.
  digits_covered :
      (x count other y : ℕ)
      → x ≤ count
      → x ≤ other
      → digits rest digit count x y ≡ digits rest digit other x y
  digits_covered zero count other y p q = digits-exhausted count y ∙ sym (digits-exhausted other y)
  digits_covered (suc x) zero other y p q = absurd (omega arith)
  digits_covered (suc x) (suc count) zero y p q = absurd (omega arith)
  digits_covered (suc x) (suc count) (suc other) y p q =
      omega (arith, digits_covered (suc x / 2) count other (y / 2) (omega arith) (omega arith))

  -- The lowest digit of the result comes from the lowest digits, the others from the halves.
  pub bitwise-halves :
      (x y : ℕ)
      → bitwise rest digit (suc x) y
        ≡ bitwise rest digit (suc x / 2) (y / 2) * 2 + digit (suc x % 2) (y % 2)
  bitwise-halves x y =
      omega (arith, digits_covered (suc x / 2) x (suc x / 2) (y / 2) (omega arith) (omega arith))
