-- ===== src/FileSystem/Allocation.antt =====
-- `alloc_block`, `alloc_inode`, `free_block` and `free_inode` of kernel_common/src/ext2.rs.
use agentic_os.Base.{
  ℕ, zero, suc, ◌+◌, ◌-◌, ◌/◌, ◌≤◌, ◌<◌, ◌≡◌, refl, sym, ◌∙◌, subst, ◌⊎◌, inl, inr, List, Bool,
  true, false, ◌&&◌, Option, none, some, Bool-cases, ltb, ◌==◌, length, get_elem?-eq-get_or, arith,
  if◌then◌else◌,
}
use agentic_os.Bitmap.{set_bit, clear_bit}
use agentic_os.Bitmap.Laws.{IsBytes, bit_at, set_bit_lem, clear_bit_lem}
use agentic_os.FileSystem.{is_free, mark, alloc_from, alloc_block, alloc_inode, free_block}

some-inj {ℓ} : {A : Type ℓ} {x y : A} → some x ≡ some y → x ≡ y
some-inj h = cc

-- `after` is `before` with the bit at `i` changed to `v`.
pub record Changed (before after : List ℕ) (i : ℕ) (v : Bool) : Type 0 where
  pub bytes : IsBytes after
  pub same_length : length after ≡ length before
  pub bits : (j : ℕ) → bit_at after j ≡ (if i == j then v else bit_at before j)

mark-Changed :
    (bitmap : List ℕ) (i : ℕ)
    → IsBytes bitmap
    → i / 8 < length bitmap
    → Changed bitmap (mark bitmap i) i true
unfolding set_bit
mark-Changed bitmap i b h =
    let (after, e, bytes, size, bits) = set_bit_lem bitmap i b (omega arith) in
    let same : mark bitmap i ≡ after =
      some-inj (sym (rw (get_elem?-eq-get_or bitmap (i / 8) 0 h) refl) ∙ e) in
    subst (λ x. Changed bitmap x i true) (sym same)
      (record { bytes = bytes; same_length = size; bits = λ j. ground (arith, bits j) })

free_block-Changed :
    (bitmap : List ℕ) (block : ℕ)
    → IsBytes bitmap
    → 0 < block
    → (block - 1) / 8 < length bitmap
    → Changed bitmap (free_block bitmap block) (block - 1) false
unfolding clear_bit free_block
free_block-Changed bitmap block b pos h =
    let (after, e, bytes, size, bits) = clear_bit_lem bitmap (block - 1) b (omega arith) in
    let guard : (ltb 0 block && ltb ((block - 1) / 8) (length bitmap)) ≡ true = ground arith in
    let same : free_block bitmap block ≡ after =
      rw guard (some-inj (sym (rw (get_elem?-eq-get_or bitmap ((block - 1) / 8) 0 h) refl) ∙ e)) in
    subst (λ x. Changed bitmap x (block - 1) false) (sym same)
      (record { bytes = bytes; same_length = size; bits = λ j. ground (arith, bits j) })

-- What an allocation among the numbers from `first` on answers: the first that is free, marked, or
-- none if none is free.
abbrev pub Allocates : List ℕ → ℕ → ℕ → List ℕ × Option ℕ → Type 0
Allocates bitmap first left (after, none) =
    (after ≡ bitmap) × ((k : ℕ) → first ≤ k → k < first + left → is_free bitmap (k - 1) ≡ false)
Allocates bitmap first left (after, some n) =
    (first ≤ n)
    × (n < first + left)
    × (is_free bitmap (n - 1) ≡ true)
    × ((k : ℕ) → first ≤ k → k < n → is_free bitmap (k - 1) ≡ false)
    × Changed bitmap after (n - 1) true

le-cases : (m k : ℕ) → m ≤ k → (m ≡ k) ⊎ (m + 1 ≤ k)
le-cases m k h = ground arith

taken_on :
    (bitmap : List ℕ) (first k : ℕ)
    → is_free bitmap (first - 1) ≡ false
    → (first + 1 ≤ k → is_free bitmap (k - 1) ≡ false)
    → first ≤ k
    → is_free bitmap (k - 1) ≡ false
taken_on bitmap first k taken later h = elim (le-cases first k h) [
  | inl e ↦ subst (λ x. is_free bitmap (x - 1) ≡ false) e taken
  | inr m ↦ later m
]

Allocates-next :
    (bitmap : List ℕ) (first left : ℕ) (r : List ℕ × Option ℕ)
    → is_free bitmap (first - 1) ≡ false
    → Allocates bitmap (first + 1) left r
    → Allocates bitmap first (suc left) r
Allocates-next bitmap first left (after, none) taken (same, all) =
    (same, λ k lo hi. taken_on bitmap first k taken (λ h. all k h (omega arith)) lo)
Allocates-next bitmap first left (after, some n) taken (lo, hi, free, all, changed) = (
  omega arith,
  omega arith,
  free,
  (λ k l h. taken_on bitmap first k taken (λ m. all k m h) l),
  changed,
)

alloc_from-Allocates :
    (bitmap : List ℕ) (first left : ℕ)
    → IsBytes bitmap
    → Allocates bitmap first left (alloc_from bitmap first left)
unfolding alloc_from
alloc_from-Allocates bitmap first zero b = (refl, λ k lo hi. absurd (omega arith))
alloc_from-Allocates bitmap first (suc left) b = elim (Bool-cases (is_free bitmap (first - 1))) [
  | inl free ↦ rw free (
    omega arith,
    omega arith,
    free,
    (λ k lo hi. absurd (omega arith)),
    mark-Changed bitmap (first - 1) b (ground arith),
  )
  | inr taken ↦ rw taken (
      Allocates-next bitmap first left (alloc_from bitmap (first + 1) left) taken
        (alloc_from-Allocates bitmap (first + 1) left b))
]

-- On any bitmap of bytes, a block is handed out whenever one of the blocks 11 to `total_blocks` is
-- free, `total_blocks` included: the first of them, whose bit alone is raised. Otherwise the bitmap stays as it was.
pub alloc_block_lem :
    (bitmap : List ℕ) (total_blocks : ℕ)
    → IsBytes bitmap
    → Allocates bitmap 11 (total_blocks + 1 - 11) (alloc_block bitmap total_blocks)
unfolding alloc_block
alloc_block_lem bitmap total_blocks b = alloc_from-Allocates bitmap 11 (total_blocks + 1 - 11) b

-- On any bitmap of bytes, an inode is handed out whenever one of the inodes 12 to `num_inodes` is
-- free: the first of them, whose bit alone is raised. Otherwise the bitmap stays as it was.
pub alloc_inode_lem :
    (bitmap : List ℕ) (num_inodes : ℕ)
    → IsBytes bitmap
    → Allocates bitmap 12 (num_inodes + 1 - 12) (alloc_inode bitmap num_inodes)
unfolding alloc_inode
alloc_inode_lem bitmap num_inodes b = alloc_from-Allocates bitmap 12 (num_inodes + 1 - 12) b

free_clear : (bitmap : List ℕ) (i : ℕ) → is_free bitmap i ≡ true → bit_at bitmap i ≡ false
free_clear bitmap i h = ground arith

restored :
    (same before mid after : Bool)
    → after ≡ (if same then false else mid)
    → mid ≡ (if same then true else before)
    → (same ≡ true → before ≡ false)
    → after ≡ before
restored true before mid after a m h = a ∙ sym (h refl)
restored false before mid after a m h = a ∙ m

free-allocated :
    (bitmap after : List ℕ) (first left n : ℕ)
    → 0 < first
    → Allocates bitmap first left (after, some n)
    → (j : ℕ) → bit_at (free_block after n) j ≡ bit_at bitmap j
free-allocated bitmap after first left n pos (lo, hi, free, all, changed) j =
    let freed =
      free_block-Changed after n (changed.bytes) (omega arith)
        (ground (arith, changed.same_length)) in
    restored (n - 1 == j) _ _ _ (freed.bits j) (changed.bits j)
      (λ e. subst (λ k. bit_at bitmap k ≡ false) (ground arith) (free_clear bitmap (n - 1) free))

-- On a bitmap of bytes, freeing the block that was just handed out restores every bit.
pub free_block-alloc_block :
    (bitmap after : List ℕ) (total_blocks n : ℕ)
    → IsBytes bitmap
    → alloc_block bitmap total_blocks ≡ (after, some n)
    → (j : ℕ) → bit_at (free_block after n) j ≡ bit_at bitmap j
free_block-alloc_block bitmap after total_blocks n b e =
    free-allocated bitmap after 11 (total_blocks + 1 - 11) n (omega arith) (
      subst (Allocates bitmap 11 (total_blocks + 1 - 11)) e (alloc_block_lem bitmap total_blocks b))
