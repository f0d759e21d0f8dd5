-- ===== src/Base/Ring.antt =====
-- A ring of slots as the list that it holds: `n` entries from position `h` on, positions counted
-- without bound and reduced modulo the capacity.
use mathlib.Core.Path.{◌≡◌, refl, sym, ap, ap₂, ◌∙◌}
use mathlib.Core.Logic.{◌≢◌}
use mathlib.Core.List.{List, [], ◌∷◌, ◌++◌}
use Prim.Native.Nat.{ℕ, zero, suc, ◌+◌, ◌-◌, ◌%◌, ◌≤◌, ◌<◌}
use native.Mathlib.Nat.{add-zero}
use native.Mathlib.Omega.{arith}
use agentic_os.Base.Lists.{length, get_or, set, get_or-set_self, get_or-set_ne}

-- The facts about remainders by the capacity that rings need; at a numeral they are linear.
pub record IsModulus (cap : ℕ) : Type 0 where
  pub below : (h : ℕ) → h % cap < cap
  pub apart : (h k : ℕ) → suc k < cap → h % cap ≢ (h + suc k) % cap
  pub next : (h h' : ℕ) → h % cap ≡ h' % cap → (h + 1) % cap ≡ (h' + 1) % cap

module _ {ℓ} {A : Type ℓ} (d : A) (cap : ℕ) where
  abbrev pub ring_list : List A → ℕ → ℕ → List A
  ring_list slots h zero = []
  ring_list slots h (suc n) = get_or slots (h % cap) d ∷ ring_list slots (h + 1) n

module _ {ℓ} {A : Type ℓ} (d : A) (cap : ℕ) (m : IsModulus cap) where
  pub length-ring_list : (slots : List A) (h n : ℕ) → length (ring_list d cap slots h n) ≡ n
  length-ring_list slots h zero = refl
  length-ring_list slots h (suc n) = ap suc (length-ring_list slots (h + 1) n)

  -- Only the remainder of the start matters.
  pub ring_list_mod :
      (slots : List A) (h h' n : ℕ)
      → h % cap ≡ h' % cap
      → ring_list d cap slots h n ≡ ring_list d cap slots h' n
  ring_list_mod slots h h' zero e = refl
  ring_list_mod slots h h' (suc n) e =
      ap₂ ◌∷◌ (ap (λ i. get_or slots i d) e)
        (ring_list_mod slots (h + 1) (h' + 1) n (m.next h h' e))

  -- A write into the first free position appends to the list.
  pub ring_list-snoc :
      (slots : List A) (h n i : ℕ) (v : A)
      → cap ≤ length slots
      → n < cap
      → i ≡ (h + n) % cap
      → ring_list d cap (set slots i v) h (suc n) ≡ ring_list d cap slots h n ++ v ∷ []
  ring_list-snoc slots h zero i v size room e =
      let same : h % cap ≡ i = sym (e ∙ ap (λ k. k % cap) (add-zero h)) in
      ap (λ x. x ∷ [])
        (ap (λ j. get_or (set slots i v) j d) same ∙ get_or-set_self slots i v d (bound same))
    where
      bound : h % cap ≡ i → i < length slots
      bound s = omega (arith, m.below h)
  ring_list-snoc slots h (suc n) i v size room e =
      ap₂ ◌∷◌ (get_or-set_ne slots i (h % cap) v d other)
        (ring_list-snoc slots (h + 1) n i v size (omega arith) (e ∙ ap (λ k. k % cap) shift))
    where
      shift : h + suc n ≡ h + 1 + n
      shift = omega arith

      other : i ≢ h % cap
      other q = m.apart h n room (sym q ∙ e)

  -- A ring that is not empty starts with the entry at its first position.
  pub ring_list-uncons :
      (slots : List A) (h n : ℕ)
      → n ≢ 0
      → ring_list d cap slots h n ≡ get_or slots (h % cap) d ∷ ring_list d cap slots (h + 1) (n - 1)
  ring_list-uncons slots h zero p = absurd (p refl)
  ring_list-uncons slots h (suc n) p =
      let e : n ≡ suc n - 1 = omega arith in
      ap (λ k. get_or slots (h % cap) d ∷ ring_list d cap slots (h + 1) k) e

  -- A write behind the list, into the position before its first, leaves the list as it was.
  pub ring_list-behind :
      (slots : List A) (h s p n : ℕ) (v : A)
      → p ≡ h + suc s
      → s + n < cap
      → ring_list d cap (set slots (h % cap) v) p n ≡ ring_list d cap slots p n
  ring_list-behind slots h s p zero v e fits = refl
  ring_list-behind slots h s p (suc n) v e fits =
      ap₂ ◌∷◌
        (get_or-set_ne slots (h % cap) (p % cap) v d
          (λ q. m.apart h s (omega arith) (q ∙ ap (λ k. k % cap) e)))
        (ring_list-behind slots h (suc s) (p + 1) n v (omega arith) (omega arith))
