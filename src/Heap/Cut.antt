-- ===== src/Heap/Cut.antt =====
-- `find_and_remove` of kernel_rs/src/heap.rs: what a block is, and what is left of the free list.
use agentic_os.Base.{
  ℕ, suc, leb→le, ◌+◌, ◌-◌, ◌*◌, ◌^◌, ◌≡◌, ◌≤◌, ◌<◌, ◌⊎◌, inl, inr, refl, ◌∙◌, List, [], ◌∷◌, true,
  false, ◌&&◌, ◌||◌, none, some, ltb, leb, Bool-cases, u64, arith,
}
use native.Mathlib.Nat.{mul-le-mul_right, suc-mul}
use agentic_os.Heap.{
  Node, node_size, add_free_region, align_up, fits, give_back, find_and_remove, sub64,
}
use agentic_os.Heap.Insert.{covers, is_free, Ordered, Apart, add_free_region_lem}
use agentic_os.Heap.Remove.{
  Aligned, align_up-Aligned, Apart-of, Unlinked, unlink_lem, any_fits, Bounded, InSpace,
}

forgotten :
    (nodes : List Node) (addr pad : ℕ)
    → ltb pad node_size ≡ true
    → add_free_region nodes addr pad ≡ nodes
unfolding add_free_region
forgotten nodes addr pad h = rw h refl

-- A pad that is given back: what is free afterwards was free or is in the pad.
give_back_lem :
    (nodes : List Node) (addr pad : ℕ)
    → Ordered 0 nodes
    → (0 < pad → Apart addr pad nodes)
    → Ordered 0 (give_back nodes addr pad)
      × ((x : ℕ)
          → is_free (give_back nodes addr pad) x
            ≡ ((leb node_size pad && covers addr pad x) || is_free nodes x))
unfolding give_back
give_back_lem nodes addr pad o a = elim (Bool-cases (leb node_size pad)) [
  | inl kept ↦
      let some_pad : ltb 0 pad ≡ true = ground arith in
      rw some_pad (rw kept (add_free_region_lem nodes addr pad o (a (ground arith)) (ground arith)))
  | inr lost ↦ elim (Bool-cases (ltb 0 pad)) [
    | inr none_left ↦ rw none_left (rw lost (o, λ x. refl))
    | inl short ↦
        let same = forgotten nodes addr pad (ground arith) in
        rw short (rw lost (rw same (o, λ x. refl)))
  ]
]

shrink :
    (addr size addr' size' : ℕ) (nodes : List Node)
    → addr ≤ addr'
    → addr' + size' ≤ addr + size
    → Apart addr size nodes
    → Apart addr' size' nodes
shrink addr size addr' size' [] h g a = tt
shrink addr size addr' size' (n ∷ ns) h g (inl before, rest) =
    (inl (omega arith), shrink addr size addr' size' ns h g rest)
shrink addr size addr' size' (n ∷ ns) h g (inr after, rest) =
    (inr (omega arith), shrink addr size addr' size' ns h g rest)

Apart-covers :
    (addr size x : ℕ) (nodes : List Node)
    → Apart addr size nodes
    → covers addr size x ≡ true
    → is_free nodes x ≡ false
Apart-covers addr size x [] a h = refl
Apart-covers addr size x (n ∷ ns) a h = ground (arith, Apart-covers addr size x ns a.1 h, a.0)

-- What a block that is found is: aligned, and free until now.
abbrev pub Cut : ℕ → ℕ → List Node → List Node × ℕ → Type 0
Cut size k nodes r =
    ((q : ℕ) × (r.1 ≡ q * 2 ^ k))
    × ((x : ℕ) → covers r.1 size x ≡ true → is_free nodes x ≡ true)
    × Ordered 0 r.0
    × ((x : ℕ) → is_free r.0 x ≡ true → (is_free nodes x ≡ true) × (covers r.1 size x ≡ false))

-- The two pads of a node around a block.
pads_lem :
    (size start : ℕ) (rest : List Node) (n : Node)
    → Ordered 0 rest
    → Apart n.addr n.size rest
    → n.addr ≤ start
    → start + size ≤ n.addr + n.size
    → let back =
        give_back
          (give_back rest n.addr (start - n.addr))
          (start + size)
          (n.addr + n.size - (start + size)) in
      Ordered 0 back
      × ((x : ℕ)
          → is_free back x ≡ true
          → ((covers n.addr n.size x || is_free rest x) ≡ true) × (covers start size x ≡ false))
pads_lem size start rest n o a low high =
    let front_pad = start - n.addr in
    let back_pad = n.addr + n.size - (start + size) in
    let (o1, f1) =
      give_back_lem rest n.addr front_pad o
        (λ p. shrink n.addr n.size n.addr front_pad rest (omega arith) (omega arith) a) in
    let front = give_back rest n.addr front_pad in
    let (o2, f2) = give_back_lem front (start + size) back_pad o1 (λ p.
      Apart-of (start + size) back_pad 0 front p o1
        (λ x h. ground (arith, f1 x, Apart-covers n.addr n.size x rest a))) in
    (o2, λ x h. ground (arith, f1 x, f2 x, h, Apart-covers n.addr n.size x rest a))

cut_lem :
    (size k : ℕ) (nodes rest : List Node) (n : Node) (start : ℕ)
    → Unlinked size (2 ^ k) 0 nodes (rest, n)
    → Aligned k n.addr start
    → start + size ≤ n.addr + n.size
    → Cut size k nodes (
      give_back
          (give_back rest n.addr (start - n.addr))
          (start + size)
          (n.addr + n.size - (start + size)),
      start,
    )
cut_lem size k nodes rest n start (o, a, above, big, fit, room, f) (q, e, low, near) high =
    let (o', g) = pads_lem size start rest n o a low high in
    ((q, e), λ x h. ground (arith, f x), o', λ x h. (f x ∙ (g x h).0, (g x h).1))

-- Where nothing wraps, a block that fits ends within the node.
fits-le :
    (size k : ℕ) (n : Node)
    → InSpace size k n
    → Aligned k n.addr (align_up n.addr (2 ^ k))
    → fits size (2 ^ k) n ≡ true
    → align_up n.addr (2 ^ k) + size ≤ n.addr + n.size
unfolding fits
fits-le size k n w a h = ground arith

-- The ends and the pads of a block, where nothing wraps.
abbrev Unwrapped : ℕ → ℕ → Node → Type 0
Unwrapped size start n =
    (u64 (start + size) ≡ start + size)
    × (sub64 start n.addr ≡ start - n.addr)
    × (sub64 (u64 (n.addr + n.size)) (start + size) ≡ n.addr + n.size - (start + size))

unwrapped :
    (size k start : ℕ) (n : Node)
    → InSpace size k n
    → Aligned k n.addr start
    → start + size ≤ n.addr + n.size
    → Unwrapped size start n
unwrapped size k start n w a h = (omega arith, omega arith, omega arith)

-- Multiples of `2 ^ k` that are less than `2 ^ k` apart do not pass each other.
multiple-le : (q r k n : ℕ) → n ≤ q * 2 ^ k → r * 2 ^ k < n + 2 ^ k → r * 2 ^ k ≤ q * 2 ^ k
multiple-le q r k n h g = elim (Bool-cases (leb r q)) [
  | inl le ↦ mul-le-mul_right (2 ^ k) (leb→le r q le)
  | inr gt ↦
      let beyond : suc q * 2 ^ k ≤ r * 2 ^ k = mul-le-mul_right (2 ^ k) (ground arith) in
      omega (arith, beyond, suc-mul q (2 ^ k))
]

-- No multiple of `2 ^ k` starts a block of the size within a node.
abbrev pub NoRoom : ℕ → ℕ → List Node → Type 0
NoRoom size k [] = Unit
NoRoom size k (n ∷ ns) =
    ((q : ℕ) → n.addr ≤ q * 2 ^ k → n.addr + n.size < q * 2 ^ k + size) × NoRoom size k ns

fits-false :
    (size k : ℕ) (n : Node)
    → InSpace size k n
    → Aligned k n.addr (align_up n.addr (2 ^ k))
    → fits size (2 ^ k) n ≡ false
    → (q : ℕ) → n.addr ≤ q * 2 ^ k
    → n.addr + n.size < q * 2 ^ k + size
unfolding fits
fits-false size k n w (r, e, low, near) h q above =
    let least : align_up n.addr (2 ^ k) ≤ q * 2 ^ k =
      omega (arith, e, multiple-le q r k n.addr above (omega (arith, e, near))) in
    ground arith

any_fits-NoRoom :
    (size k : ℕ) (nodes : List Node)
    → Bounded size k nodes
    → k ≤ 64
    → any_fits size (2 ^ k) nodes ≡ false
    → NoRoom size k nodes
any_fits-NoRoom size k [] w b h = tt
any_fits-NoRoom size k (n ∷ ns) (v, w) b h = (
  fits-false size k n v (align_up-Aligned n.addr k b (omega (arith, v))) (ground arith),
  any_fits-NoRoom size k ns w b (ground arith),
)

-- On an ordered free list `find_and_remove` fails only when no multiple of the alignment starts a
-- block of the size within a node.
-- Otherwise the block starts at a multiple of the alignment, all its bytes were free, and the list that
-- is left is ordered and holds only bytes that were free and are not in the block. The alignment is a
-- power of two, the nodes end below 2 ^ 64, and the start of each, the alignment and the size of the
-- block together do not pass 2 ^ 64.
pub find_and_remove_lem :
    (nodes : List Node) (size k : ℕ)
    → Ordered 0 nodes
    → Bounded size k nodes
    → k ≤ 64
    → ((find_and_remove nodes size (2 ^ k) ≡ none) × NoRoom size k nodes)
      ⊎ ((r : List Node × ℕ) × (find_and_remove nodes size (2 ^ k) ≡ some r) × Cut size k nodes r)
unfolding find_and_remove
find_and_remove_lem nodes size k o w b = elim (unlink_lem size (2 ^ k) 0 nodes o) [
  | inl (e, no_room) ↦ inl (rw e refl, any_fits-NoRoom size k nodes w b no_room)
  | inr (r, e, u) ↦
      let start = align_up r.1.addr (2 ^ k) in
      let in_space = u.5 k w in
      let aligned = align_up-Aligned r.1.addr k b (omega (arith, in_space)) in
      let inside = fits-le size k r.1 in_space aligned u.4 in
      let front = give_back r.0 r.1.addr (start - r.1.addr) in
      let (end, front_pad, back_pad) = unwrapped size k start r.1 in_space aligned inside in
      inr (
        (give_back front (start + size) (r.1.addr + r.1.size - (start + size)), start),
        rw e (rw end (rw front_pad (rw back_pad refl))),
        cut_lem size k nodes r.0 r.1 start u aligned inside,
      )
]
