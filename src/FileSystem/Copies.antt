-- ===== src/FileSystem/Copies.antt =====
-- What `vcopy` of kernel_common/src/ext2.rs leaves in a block: the bytes at their place and everything
-- else as it was.
use agentic_os.Base.{
  ℕ, zero, suc, ◌+◌, ◌≡◌, ◌≤◌, ◌<◌, ◌⊎◌, inl, inr, refl, ◌∙◌, ap, List, [], ◌∷◌, some, length,
  get_elem?, set, length-set, get_elem?-set_self, get_elem?-set_ne, ltb, true, arith,
}
use agentic_os.FileSystem.Records.{vcopy, zeros, write_byte}

-- The bytes at an offset are those of the list.
abbrev pub Holds : List ℕ → ℕ → List ℕ → Type 0
Holds b off [] = Unit
Holds b off (v ∷ vs) = (get_elem? b off ≡ some v) × Holds b (off + 1) vs

-- A copy that fits: what it leaves is the bytes at their place, and everything else as it was.
abbrev pub Copied : List ℕ → ℕ → List ℕ → List ℕ → Type 0
Copied b off vs b' =
    (length b' ≡ length b)
    × Holds b' off vs
    × ((i : ℕ) → (i < off) ⊎ (off + length vs ≤ i) → get_elem? b' i ≡ get_elem? b i)

-- A block that agrees on the place of the bytes holds them too.
pub Holds-agree :
    (b b' : List ℕ) (off : ℕ) (vs : List ℕ)
    → ((i : ℕ) → off ≤ i → i < off + length vs → get_elem? b' i ≡ get_elem? b i)
    → Holds b off vs
    → Holds b' off vs
Holds-agree b b' off [] same h = tt
Holds-agree b b' off (v ∷ vs) same (e, h) = (
  same off (omega arith) (omega arith) ∙ e,
  Holds-agree b b' (off + 1) vs (λ i low high. same i (omega arith) (omega arith)) h,
)

pub vcopy-Copied :
    (vs b : List ℕ) (off : ℕ)
    → off + length vs ≤ length b
    → (b' : List ℕ) × (vcopy b off vs ≡ some b') × Copied b off vs b'
unfolding vcopy write_byte
vcopy-Copied [] b off h = (b, refl, (refl, tt, λ i o. refl))
vcopy-Copied (v ∷ vs) b off h =
    let inside : ltb off (length b) ≡ true = ground arith in
    let (b', e, (len, held, kept)) =
      vcopy-Copied vs (set b off v) (off + 1) (omega (arith, length-set b off v)) in
    (
      b',
      rw inside e,
      (
        len ∙ length-set b off v,
        (kept off (inl (omega arith)) ∙ get_elem?-set_self b off v (omega arith), held),
        λ i o. kept i (later i o) ∙ get_elem?-set_ne b off i v (λ q. other i o q),
      ),
    )
  where
    other : (i : ℕ) → (i < off) ⊎ (off + suc (length vs) ≤ i) → off ≡ i → ⊥
    other i (inl low) q = omega arith
    other i (inr high) q = omega arith

    later :
        (i : ℕ)
        → (i < off) ⊎ (off + suc (length vs) ≤ i)
        → (i < off + 1) ⊎ (off + 1 + length vs ≤ i)
    later i (inl low) = inl (omega arith)
    later i (inr high) = inr (omega arith)

pub length-zeros : (n : ℕ) → length (zeros n) ≡ n
length-zeros zero = refl
length-zeros (suc n) = ap suc (length-zeros n)
