-- ===== src/Pmm/Count.antt =====
-- How many pages of a bitmap are free, and how one bit changes the number.
use agentic_os.Base.{
  ℕ, zero, suc, ◌+◌, ◌≤◌, ◌<◌, ◌≡◌, refl, List, true, false, not, ◌&&◌, ◌||◌, arith, ◌==◌,
  if◌then◌else◌,
}
use agentic_os.Bitmap.Laws.{bit_at}

-- The clear bits among the first `n`.
unfoldable pub count_clear : List ℕ → ℕ → ℕ
count_clear bitmap zero = 0
count_clear bitmap (suc n) = count_clear bitmap n + (if bit_at bitmap n then 0 else 1)

pub count_clear-le : (bitmap : List ℕ) (n : ℕ) → count_clear bitmap n ≤ n
unfolding count_clear
count_clear-le bitmap zero = omega arith
count_clear-le bitmap (suc n) = ground (arith, count_clear-le bitmap n)

pub count_clear-pos :
    (bitmap : List ℕ) (n i : ℕ) → i < n → bit_at bitmap i ≡ false → 0 < count_clear bitmap n
unfolding count_clear
count_clear-pos bitmap zero i h e = absurd (omega arith)
count_clear-pos bitmap (suc n) i h e = ground (arith, count_clear-pos bitmap n i)

-- Bit `i` alone was raised.
abbrev pub Raised : List ℕ → List ℕ → ℕ → Type 0
Raised before after i = (j : ℕ) → bit_at after j ≡ (i == j || bit_at before j)

-- Bit `i` alone was lowered.
abbrev pub Lowered : List ℕ → List ℕ → ℕ → Type 0
Lowered before after i = (j : ℕ) → bit_at after j ≡ (not (i == j) && bit_at before j)

pub count_clear-Raised_out :
    (before after : List ℕ) (n i : ℕ)
    → Raised before after i
    → n ≤ i
    → count_clear after n ≡ count_clear before n
unfolding count_clear
count_clear-Raised_out before after zero i r h = refl
count_clear-Raised_out before after (suc n) i r h =
    ground (arith, r n, count_clear-Raised_out before after n i r (omega arith))

pub count_clear-Raised :
    (before after : List ℕ) (n i : ℕ)
    → Raised before after i
    → i < n
    → bit_at before i ≡ false
    → count_clear after n + 1 ≡ count_clear before n
unfolding count_clear
count_clear-Raised before after zero i r h e = absurd (omega arith)
count_clear-Raised before after (suc n) i r h e =
    ground
      (arith, r n, count_clear-Raised before after n i r, count_clear-Raised_out before after n i r)

pub count_clear-Lowered_out :
    (before after : List ℕ) (n i : ℕ)
    → Lowered before after i
    → n ≤ i
    → count_clear after n ≡ count_clear before n
unfolding count_clear
count_clear-Lowered_out before after zero i r h = refl
count_clear-Lowered_out before after (suc n) i r h =
    ground (arith, r n, count_clear-Lowered_out before after n i r (omega arith))

pub count_clear-Lowered :
    (before after : List ℕ) (n i : ℕ)
    → Lowered before after i
    → i < n
    → bit_at before i ≡ true
    → count_clear after n ≡ count_clear before n + 1
unfolding count_clear
count_clear-Lowered before after zero i r h e = absurd (omega arith)
count_clear-Lowered before after (suc n) i r h e =
    ground (
      arith,
      r n,
      count_clear-Lowered before after n i r,
      count_clear-Lowered_out before after n i r,
    )
