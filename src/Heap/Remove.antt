-- ===== src/Heap/Remove.antt =====
-- `find_and_remove` of kernel_rs/src/heap.rs: blocks are cut out of the free list.
use agentic_os.Base.{
  ℕ, zero, suc, ◌+◌, ◌-◌, ◌*◌, ◌/◌, ◌%◌, ◌^◌, ◌≡◌, ◌≤◌, ◌<◌, ◌⊎◌, inl, inr, refl, ◌∙◌, ap, List, [],
  ◌∷◌, Bool, true, false, ◌||◌, none, some, bit_and, Bool-cases, arith,
}
use native.Mathlib.Nat.{pow-suc, one-le-pow, mod-eq_of_lt}
use agentic_os.Base.Bits.{bit_and_halves, bit_and-ones}
use agentic_os.Heap.{Node, node_size, align_up, fits, unlink}
use agentic_os.Heap.Insert.{covers, is_free, Ordered, Apart, weaken}

-- The largest multiple of `2 ^ k` up to the number.
abbrev Multiple : ℕ → ℕ → ℕ → Type 0
Multiple k n m = (q : ℕ) × (m ≡ q * 2 ^ k) × (m ≤ n) × (n < m + 2 ^ k)

double : (q k : ℕ) → q * 2 ^ suc k ≡ q * 2 ^ k * 2
double q k = omega (arith, ap (λ (t : ℕ). q * t) (pow-suc 2 k))

-- Masking with all but the lowest `k` of `w` ones.
bit_and-high : (k w n : ℕ) → k ≤ w → n < 2 ^ w → Multiple k n (bit_and n (2 ^ w - 2 ^ k))
bit_and-high zero w n b h =
    let same : bit_and n (2 ^ w - 1) ≡ n = bit_and-ones w n ∙ mod-eq_of_lt h in
    (n, omega (arith, same), omega (arith, same), omega (arith, same))
bit_and-high (suc k) zero n b h = absurd (omega arith)
bit_and-high (suc k) (suc w) n b h =
    let (q, e, low, high) = bit_and-high k w (n / 2) (omega arith) (omega (arith, pow-suc 2 w)) in
    let mask : (2 ^ suc w - 2 ^ suc k) / 2 ≡ 2 ^ w - 2 ^ k =
      omega (arith, pow-suc 2 w, pow-suc 2 k) in
    let twice : bit_and n (2 ^ suc w - 2 ^ suc k) ≡ bit_and (n / 2) (2 ^ w - 2 ^ k) * 2 = omega (
      arith,
      bit_and_halves n (2 ^ suc w - 2 ^ suc k),
      ap (bit_and (n / 2)) mask,
      pow-suc 2 w,
      pow-suc 2 k,
    ) in
    (
      q,
      omega (arith, twice, e, double q k),
      omega (arith, twice, low),
      omega (arith, twice, high, pow-suc 2 k),
    )

abbrev pub Aligned : ℕ → ℕ → ℕ → Type 0
Aligned k addr start = (q : ℕ) × (start ≡ q * 2 ^ k) × (addr ≤ start) × (start < addr + 2 ^ k)

pub align_up-Aligned :
    (addr k : ℕ) → k ≤ 64 → addr + 2 ^ k ≤ 2 ^ 64 → Aligned k addr (align_up addr (2 ^ k))
unfolding align_up
align_up-Aligned addr k w h =
    let n = (addr + 2 ^ k + 2 ^ 64 - 1) % 2 ^ 64 in
    let whole : n ≡ addr + 2 ^ k - 1 = omega (arith, one-le-pow k 2) in
    let (q, e, low, high) = bit_and-high k 64 n w (omega arith) in
    (q, e, omega (arith, whole, high, one-le-pow k 2), omega (arith, whole, low, one-le-pow k 2))

-- Bytes that are not free make a region lie apart from the nodes.
pub Apart-of :
    (addr size low : ℕ) (nodes : List Node)
    → 0 < size
    → Ordered low nodes
    → ((x : ℕ) → covers addr size x ≡ true → is_free nodes x ≡ false)
    → Apart addr size nodes
Apart-of addr size low [] s o h = tt
Apart-of addr size low (n ∷ ns) s (a, b, c) h =
    let at_node : covers addr size n.addr ≡ true → is_free (n ∷ ns) n.addr ≡ false = h n.addr in
    let at_start : covers addr size addr ≡ true → is_free (n ∷ ns) addr ≡ false = h addr in
    (
      ground (arith, at_node, at_start),
      Apart-of addr size (suc (n.addr + n.size)) ns s c (λ x e. ground (arith, h x e)),
    )

beyond-Apart :
    (addr size low : ℕ) (nodes : List Node)
    → addr + size ≤ low
    → Ordered low nodes
    → Apart addr size nodes
beyond-Apart addr size low [] h o = tt
beyond-Apart addr size low (n ∷ ns) h (a, b, c) =
    (inr (omega arith), beyond-Apart addr size (suc (n.addr + n.size)) ns (omega arith) c)

-- The nodes end below `2 ^ 64`, and leave room there for the alignment and the block.
abbrev pub InSpace : ℕ → ℕ → Node → Type 0
InSpace size k n = (n.addr + 2 ^ k + size ≤ 2 ^ 64) × (n.addr + n.size < 2 ^ 64)

abbrev pub Bounded : ℕ → ℕ → List Node → Type 0
Bounded size k [] = Unit
Bounded size k (n ∷ ns) = InSpace size k n × Bounded size k ns

-- A node that is unlinked.
abbrev pub Unlinked : ℕ → ℕ → ℕ → List Node → List Node × Node → Type 0
Unlinked size align low nodes r =
    Ordered low r.0
    × Apart r.1.addr r.1.size r.0
    × (low ≤ r.1.addr)
    × (node_size ≤ r.1.size)
    × (fits size align r.1 ≡ true)
    × ((k : ℕ) → Bounded size k nodes → InSpace size k r.1)
    × ((x : ℕ) → is_free nodes x ≡ covers r.1.addr r.1.size x || is_free r.0 x)

-- Whether some node has room for the aligned block.
abbrev pub any_fits : ℕ → ℕ → List Node → Bool
any_fits size align [] = false
any_fits size align (n ∷ ns) = fits size align n || any_fits size align ns

pub unlink_lem :
    (size align low : ℕ) (nodes : List Node)
    → Ordered low nodes
    → ((unlink size align nodes ≡ none) × (any_fits size align nodes ≡ false))
      ⊎ ((r : List Node × Node) × (unlink size align nodes ≡ some r)
          × Unlinked size align low nodes r)
unfolding unlink
unlink_lem size align low [] o = inl (refl, refl)
unlink_lem size align low (n ∷ ns) (a, b, c) = elim (Bool-cases (fits size align n)) [
  | inl fit ↦ inr (
    (ns, n),
    rw fit refl,
    (
      weaken _ low ns (omega arith) c,
      beyond-Apart n.addr n.size _ ns (omega arith) c,
      a,
      b,
      fit,
      λ k w. w.0,
      λ x. refl,
    ),
  )
  | inr small ↦ elim (unlink_lem size align (suc (n.addr + n.size)) ns c) [
    | inl (e, no_room) ↦ inl (rw small (rw e refl), rw small no_room)
    | inr (r, e, (o, apart, above, big, fit, room, f)) ↦ inr (
      (n ∷ r.0, r.1),
      rw small (rw e refl),
      (
        (a, b, o),
        (inl (omega arith), apart),
        omega arith,
        big,
        fit,
        λ k w. room k w.1,
        λ x. ground (arith, f x),
      ),
    )
  ]
]
