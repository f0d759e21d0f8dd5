-- ===== src/Heap/Insert.antt =====
-- `add_free_region` of kernel_rs/src/heap.rs: the free list stays ordered and merged.
use agentic_os.Base.{
  ℕ, suc, ◌+◌, ◌≡◌, ◌≤◌, ◌<◌, ◌⊎◌, inl, inr, refl, List, [], ◌∷◌, Bool, false, ◌&&◌, ◌||◌, ltb, leb,
  ◌==◌, Bool-cases, arith,
}
use agentic_os.Heap.{Node, node_size, in_front, behind, walk, insert, add_free_region}

-- The byte at `x` is in the region.
abbrev pub covers : ℕ → ℕ → ℕ → Bool
covers addr size x = leb addr x && ltb x (addr + size)

-- The byte at `x` is free.
abbrev pub is_free : List Node → ℕ → Bool
is_free [] x = false
is_free (n ∷ ns) x = covers n.addr n.size x || is_free ns x

-- Nodes from `low` on, in the order of their addresses, with a gap between any two and room for a
-- node in each.
abbrev pub Ordered : ℕ → List Node → Type 0
Ordered low [] = Unit
Ordered low (n ∷ ns) = (low ≤ n.addr) × (node_size ≤ n.size) × Ordered (suc (n.addr + n.size)) ns

-- No node overlaps the region.
abbrev pub Apart : ℕ → ℕ → List Node → Type 0
Apart addr size [] = Unit
Apart addr size (n ∷ ns) = ((n.addr + n.size ≤ addr) ⊎ (addr + size ≤ n.addr)) × Apart addr size ns

-- What an insertion gives: ordered nodes that hold the old bytes and the region's.
abbrev Inserted : ℕ → ℕ → ℕ → List Node → List Node → Type 0
Inserted low addr size nodes nodes' =
    Ordered low nodes' × ((x : ℕ) → is_free nodes' x ≡ covers addr size x || is_free nodes x)

pub weaken : (low low' : ℕ) (ns : List Node) → low' ≤ low → Ordered low ns → Ordered low' ns
weaken low low' [] h o = tt
weaken low low' (n ∷ ns) h (a, b, c) = (omega arith, b, c)

in_front-Inserted :
    (low addr size : ℕ) (rest : List Node)
    → low ≤ addr
    → node_size ≤ size
    → Ordered (addr + size) rest
    → Inserted low addr size rest (in_front addr size rest)
unfolding in_front
in_front-Inserted low addr size [] h s o = ((h, s, tt), λ x. refl)
in_front-Inserted low addr size (curr ∷ next) h s (a, b, c) =
    elim (Bool-cases (addr + size == curr.addr)) [
      | inl touch ↦ rw touch ((h, omega arith, weaken _ _ next (ground arith) c), λ x. ground arith)
      | inr gap ↦ rw gap ((h, s, (ground arith, b, c)), λ x. refl)
    ]

behind-Inserted :
    (low addr size : ℕ) (prev : Node) (rest : List Node)
    → node_size ≤ size
    → low ≤ prev.addr
    → node_size ≤ prev.size
    → prev.addr + prev.size ≤ addr
    → Ordered (addr + size) rest
    → Inserted low addr size (prev ∷ rest) (behind prev addr size rest)
unfolding behind
behind-Inserted low addr size prev rest s p q h o =
    elim (Bool-cases (prev.addr + prev.size == addr)) [
      | inl touch ↦
          let (o', f) =
            in_front-Inserted low prev.addr (prev.size + size) rest p (omega arith)
              (weaken _ _ rest (ground arith) o) in
          rw touch (o', λ x. ground (arith, f x))
      | inr gap ↦
          let (o', f) =
            in_front-Inserted (suc (prev.addr + prev.size)) addr size rest (ground arith) s o in
          rw gap ((p, q, o'), λ x. ground (arith, f x))
    ]

-- The nodes that are not below the region lie behind it.
head_behind :
    (low addr size : ℕ) (n : Node) (ns : List Node)
    → Ordered low (n ∷ ns)
    → Apart addr size (n ∷ ns)
    → node_size ≤ size
    → addr ≤ n.addr
    → Ordered (addr + size) (n ∷ ns)
head_behind low addr size n ns (a, b, c) (inl before, rest) s h = absurd (omega arith)
head_behind low addr size n ns (a, b, c) (inr after, rest) s h = (after, b, c)

head_below :
    (addr size : ℕ) (n : Node)
    → node_size ≤ n.size
    → n.addr < addr
    → (n.addr + n.size ≤ addr) ⊎ (addr + size ≤ n.addr)
    → n.addr + n.size ≤ addr
head_below addr size n b h (inl before) = before
head_below addr size n b h (inr after) = absurd (omega arith)

module _ (addr size : ℕ) (s : node_size ≤ size) where
  walk-Inserted :
      (low : ℕ) (prev : Node) (rest : List Node)
      → low ≤ prev.addr
      → node_size ≤ prev.size
      → prev.addr + prev.size ≤ addr
      → Ordered (suc (prev.addr + prev.size)) rest
      → Apart addr size rest
      → Inserted low addr size (prev ∷ rest) (walk prev addr size rest)
  unfolding walk
  walk-Inserted low prev [] p q h o a = behind-Inserted low addr size prev [] s p q h tt
  walk-Inserted low prev (c ∷ cs) p q h o a = elim (Bool-cases (ltb c.addr addr)) [
    | inl below ↦
        let (o', f) =
          walk-Inserted (suc (prev.addr + prev.size)) c cs o.0 o.1
            (head_below addr size c o.1 (ground arith) a.0) o.2 a.1 in
        rw below ((p, q, o'), λ x. ground (arith, f x))
    | inr beyond ↦ rw beyond (
        behind-Inserted low addr size prev (c ∷ cs) s p q h
          (head_behind _ addr size c cs o a s (ground arith)))
  ]

  insert-Inserted :
      (nodes : List Node)
      → Ordered 0 nodes
      → Apart addr size nodes
      → Inserted 0 addr size nodes (insert addr size nodes)
  unfolding insert
  insert-Inserted [] o a = in_front-Inserted 0 addr size [] (omega arith) s tt
  insert-Inserted (c ∷ cs) o a = elim (Bool-cases (ltb c.addr addr)) [
    | inl below ↦
        rw below
          (walk-Inserted 0 c cs o.0 o.1 (head_below addr size c o.1 (ground arith) a.0) o.2 a.1)
    | inr beyond ↦ rw beyond (
        in_front-Inserted 0 addr size (c ∷ cs) (omega arith) s
          (head_behind 0 addr size c cs o a s (ground arith)))
  ]

pub add_free_region_lem :
    (nodes : List Node) (addr size : ℕ)
    → Ordered 0 nodes
    → Apart addr size nodes
    → node_size ≤ size
    → Ordered 0 (add_free_region nodes addr size)
      × ((x : ℕ)
          → is_free (add_free_region nodes addr size) x ≡ covers addr size x || is_free nodes x)
unfolding add_free_region
add_free_region_lem nodes addr size o a s =
    let kept : ltb size node_size ≡ false = ground arith in
    rw kept (insert-Inserted addr size s nodes o a)
