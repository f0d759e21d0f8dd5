-- ===== src/Bitmap/Laws.antt =====
-- What the bit operations of kernel_common/src/bitmap.rs do to every bit.
use agentic_os.Base.{
  ℕ, zero, suc, ◌-◌, ◌*◌, ◌/◌, ◌%◌, ◌^◌, ◌<◌, ◌≡◌, ◌≢◌, refl, sym, ap, ap₂, ◌∙◌, List, [], ◌∷◌,
  Bool, true, false, not, ◌&&◌, ◌||◌, some, arith, length, get_or, set, bit_and, bit_or, ◌==◌,
  length-set, get_elem?-eq-get_or, get_or-set_self, get_or-set_ne, ltb, ltb→lt,
}
use native.Mathlib.Decide.{ℕ_discrete}
use agentic_os.Base.Checked.{all_below, passes_below}
use agentic_os.Bitmap.{set_bit, clear_bit, test_bit}

-- Every element is a byte.
abbrev pub IsBytes : List ℕ → Type 0
IsBytes [] = Unit {0}
IsBytes (b ∷ bs) = (b < 256) × IsBytes bs

pub byte-lt : (bs : List ℕ) (i : ℕ) → IsBytes bs → get_or bs i 0 < 256
byte-lt [] i h = omega arith
byte-lt (b ∷ bs) zero h = h.0
byte-lt (b ∷ bs) (suc i) h = byte-lt bs i h.1

pub set-IsBytes : (bs : List ℕ) (i v : ℕ) → v < 256 → IsBytes bs → IsBytes (set bs i v)
set-IsBytes [] i v p h = tt
set-IsBytes (b ∷ bs) zero v p h = (p, h.1)
set-IsBytes (b ∷ bs) (suc i) v p h = (h.0, set-IsBytes bs i v p h.1)

abbrev pub has_bit : ℕ → ℕ → Bool
has_bit b k = not (bit_and b (2 ^ k) == 0)

abbrev same : Bool → Bool → Bool
same true b = b
same false b = not b

same→≡ : (a b : Bool) → same a b ≡ true → a ≡ b
same→≡ true b h = sym h
same→≡ false true h = cc
same→≡ false false h = refl

-- Both updates of a byte, checked on all bytes and positions.
update_table :
    all_below 256 (λ b. all_below 8 (λ k. all_below 8 (λ j.
      same (has_bit (bit_or b (2 ^ k)) j) (k == j || has_bit b j)
      && same (has_bit (bit_and b (255 - 2 ^ k)) j) (not (k == j) && has_bit b j)
      && ltb (bit_or b (2 ^ k)) 256
      && ltb (bit_and b (255 - 2 ^ k)) 256)))
    ≡ true
unfolding all_below
update_table = refl

abbrev Updates : ℕ → ℕ → ℕ → Type 0
Updates b k j =
    (has_bit (bit_or b (2 ^ k)) j ≡ (k == j || has_bit b j))
    × (has_bit (bit_and b (255 - 2 ^ k)) j ≡ (not (k == j) && has_bit b j))
    × (bit_or b (2 ^ k) < 256)
    × (bit_and b (255 - 2 ^ k) < 256)

split_and : (a b : Bool) → (a && b) ≡ true → (a ≡ true) × (b ≡ true)
split_and true b h = (refl, h)
split_and false b h = cc

updates : (b k j : ℕ) → b < 256 → k < 8 → j < 8 → Updates b k j
updates b k j hb hk hj =
    let row = passes_below 256 {k = b} _ update_table hb in
    let cell = passes_below 8 {k = j} _ (passes_below 8 {k = k} _ row hk) hj in
    let (others, below_and) = split_and _ _ cell in
    let (both, below_or) = split_and _ _ others in
    let (raised, lowered) = split_and _ _ both in
    (same→≡ _ _ raised, same→≡ _ _ lowered, ltb→lt _ _ below_or, ltb→lt _ _ below_and)

-- The bit at index `i`, for an index within the bitmap.
abbrev pub bit_at : List ℕ → ℕ → Bool
bit_at bitmap i = has_bit (get_or bitmap (i / 8) 0) (i % 8)

pub test_bit_lem :
    (bitmap : List ℕ) (i : ℕ) → i < 8 * length bitmap → test_bit bitmap i ≡ some (bit_at bitmap i)
unfolding test_bit
test_bit_lem bitmap i h = rw (get_elem?-eq-get_or bitmap (i / 8) 0 (omega arith))

-- A byte is changed in one place: what that does to every bit of the bitmap.
module _ (bitmap : List ℕ) (i v : ℕ) (h : i < 8 * length bitmap) where
  bit_at-set_in : (j : ℕ) → j / 8 ≡ i / 8 → bit_at (set bitmap (i / 8) v) j ≡ has_bit v (j % 8)
  bit_at-set_in j e =
      ap (λ b. has_bit b (j % 8))
        (ap (λ q. get_or (set bitmap (i / 8) v) q 0) e
          ∙ get_or-set_self bitmap (i / 8) v 0 (omega arith))

  bit_at-set_out : (j : ℕ) → j / 8 ≢ i / 8 → bit_at (set bitmap (i / 8) v) j ≡ bit_at bitmap j
  bit_at-set_out j ne =
      ap (λ b. has_bit b (j % 8)) (get_or-set_ne bitmap (i / 8) (j / 8) v 0 (λ e. ne (sym e)))

==-same_byte : (i j : ℕ) → j / 8 ≡ i / 8 → (i % 8 == j % 8) ≡ (i == j)
==-same_byte i j e = ground arith

==-other_byte : (i j : ℕ) → j / 8 ≢ i / 8 → (i == j) ≡ false
==-other_byte i j ne = ground arith

-- Setting a bit within the bitmap succeeds, raises that bit and keeps every other.
pub set_bit_lem :
    (bitmap : List ℕ) (i : ℕ)
    → IsBytes bitmap
    → i < 8 * length bitmap
    → (bitmap' : List ℕ) × (set_bit bitmap i ≡ some bitmap')
      × IsBytes bitmap'
      × (length bitmap' ≡ length bitmap)
      × ((j : ℕ) → bit_at bitmap' j ≡ (i == j || bit_at bitmap j))
unfolding set_bit
set_bit_lem bitmap i bytes h = (
  set bitmap (i / 8) v,
  rw (get_elem?-eq-get_or bitmap (i / 8) 0 (omega arith)),
  set-IsBytes bitmap (i / 8) v (updates b (i % 8) 0 small (omega arith) (omega arith)).2 bytes,
  length-set bitmap (i / 8) v,
  bits,
)
  where
    b : ℕ
    b = get_or bitmap (i / 8) 0

    small : b < 256
    small = byte-lt bitmap (i / 8) bytes

    v : ℕ
    v = bit_or b (2 ^ (i % 8))

    bits : (j : ℕ) → bit_at (set bitmap (i / 8) v) j ≡ (i == j || bit_at bitmap j)
    bits j = elim (ℕ_discrete (j / 8) (i / 8)) [
      | yes e ↦
          bit_at-set_in bitmap i v h j e
          ∙ (updates b (i % 8) (j % 8) small (omega arith) (omega arith)).0
          ∙ ap₂ ◌||◌ (==-same_byte i j e) (ap (λ q. has_bit (get_or bitmap q 0) (j % 8)) (sym e))
      | no ne ↦ bit_at-set_out bitmap i v h j ne ∙ rw (==-other_byte i j ne)
    ]

-- Clearing a bit within the bitmap succeeds, lowers that bit and keeps every other.
pub clear_bit_lem :
    (bitmap : List ℕ) (i : ℕ)
    → IsBytes bitmap
    → i < 8 * length bitmap
    → (bitmap' : List ℕ) × (clear_bit bitmap i ≡ some bitmap')
      × IsBytes bitmap'
      × (length bitmap' ≡ length bitmap)
      × ((j : ℕ) → bit_at bitmap' j ≡ (not (i == j) && bit_at bitmap j))
unfolding clear_bit
clear_bit_lem bitmap i bytes h = (
  set bitmap (i / 8) v,
  rw (get_elem?-eq-get_or bitmap (i / 8) 0 (omega arith)),
  set-IsBytes bitmap (i / 8) v (updates b (i % 8) 0 small (omega arith) (omega arith)).3 bytes,
  length-set bitmap (i / 8) v,
  bits,
)
  where
    b : ℕ
    b = get_or bitmap (i / 8) 0

    small : b < 256
    small = byte-lt bitmap (i / 8) bytes

    v : ℕ
    v = bit_and b (255 - 2 ^ (i % 8))

    bits : (j : ℕ) → bit_at (set bitmap (i / 8) v) j ≡ (not (i == j) && bit_at bitmap j)
    bits j = elim (ℕ_discrete (j / 8) (i / 8)) [
      | yes e ↦
          bit_at-set_in bitmap i v h j e
          ∙ (updates b (i % 8) (j % 8) small (omega arith) (omega arith)).1
          ∙ ap₂ ◌&&◌ (ap not (==-same_byte i j e))
              (ap (λ q. has_bit (get_or bitmap q 0) (j % 8)) (sym e))
      | no ne ↦ bit_at-set_out bitmap i v h j ne ∙ rw (==-other_byte i j ne)
    ]
