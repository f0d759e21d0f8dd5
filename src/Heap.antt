-- ===== src/Heap.antt =====
-- The kernel heap, kernel_rs/src/heap.rs: a free list that is kept in the free memory itself, here the
-- list of its nodes with their addresses, first to last. The sums of `find_and_remove` wrap, since they
-- depend on the request; those of `add_free_region` are the ends of memory that exists. The lock of
-- the allocator is held over each call, which is one step.
pub mod Insert
pub mod Remove
pub mod Cut
pub mod Grow
mod Tests
use agentic_os.Base.{
  ℕ, ◌+◌, ◌-◌, ◌%◌, ◌^◌, List, [], ◌∷◌, Bool, Option, none, some, ◌>>=◌, bit_and, ltb, leb, ◌==◌,
  if◌then◌else◌, u64,
}

-- A node: its address and `size`.
pub record Node : Type 0 where
  pub addr : ℕ
  pub size : ℕ

-- `size_of::<FreeListNode>()`
abbrev pub node_size : ℕ
node_size = 16

-- The new region in front of the nodes at higher addresses, merged with the first where they touch.
unfoldable pub in_front : ℕ → ℕ → List Node → List Node
in_front addr size [] = record { addr = addr; size = size } ∷ []
in_front addr size (curr ∷ next) =
    if addr + size == curr.addr
    then record { addr = addr; size = size + curr.size } ∷ next
    else record { addr = addr; size = size } ∷ curr ∷ next

-- The place behind `prev`: a region that touches `prev` makes it longer.
unfoldable pub behind : Node → ℕ → ℕ → List Node → List Node
unfolding in_front
behind prev addr size rest =
    if prev.addr + prev.size == addr
    then in_front prev.addr (prev.size + size) rest
    else prev ∷ in_front addr size rest

-- The walk to the first node that is not below the address.
unfoldable pub walk : Node → ℕ → ℕ → List Node → List Node
unfolding behind
walk prev addr size [] = behind prev addr size []
walk prev addr size (curr ∷ next) =
    let further = walk curr addr size next in
    if ltb curr.addr addr then prev ∷ further else behind prev addr size (curr ∷ next)

unfoldable pub insert : ℕ → ℕ → List Node → List Node
unfolding walk
insert addr size [] = in_front addr size []
insert addr size (curr ∷ next) =
    if ltb curr.addr addr then walk curr addr size next else in_front addr size (curr ∷ next)

-- `add_free_region`: a region with no room for a node is forgotten.
unfoldable pub add_free_region : List Node → ℕ → ℕ → List Node
unfolding insert
add_free_region nodes addr size = if ltb size node_size then nodes else insert addr size nodes

-- `LockedHeap::align_up` on a usize.
unfoldable pub align_up : ℕ → ℕ → ℕ
align_up addr align = bit_and ((addr + align + 2 ^ 64 - 1) % 2 ^ 64) (2 ^ 64 - align)

-- `alloc_start - node_addr` and `node_end - alloc_end` on u64.
abbrev pub sub64 : ℕ → ℕ → ℕ
sub64 a b = u64 (a + 2 ^ 64 - b)

-- `alloc_end <= node_end`: whether an aligned block fits into the node.
unfoldable pub fits : ℕ → ℕ → Node → Bool
unfolding align_up
fits size align node = leb (u64 (align_up node.addr align + size)) (u64 (node.addr + node.size))

-- The loop of `find_and_remove` up to the unlinking: the other nodes, and the first that fits.
unfoldable pub unlink : ℕ → ℕ → List Node → Option (List Node × Node)
unfolding fits
unlink size align [] = none
unlink size align (node ∷ next) =
    let later = unlink size align next in
    if fits size align node then some (next, node) else (later >>= λ r. some (node ∷ r.0, r.1))

-- A pad is given back when there is one.
unfoldable pub give_back : List Node → ℕ → ℕ → List Node
unfolding add_free_region
give_back nodes addr pad = if ltb 0 pad then add_free_region nodes addr pad else nodes

-- `find_and_remove`: the free list and the start of the block.
unfoldable pub find_and_remove : List Node → ℕ → ℕ → Option (List Node × ℕ)
unfolding unlink give_back
find_and_remove nodes size align = do
  found ← unlink size align nodes
  let node = found.1
  let alloc_start = align_up node.addr align
  let alloc_end = u64 (alloc_start + size)
  let node_end = u64 (node.addr + node.size)
  let front = give_back found.0 node.addr (sub64 alloc_start node.addr)
  some (give_back front alloc_end (sub64 node_end alloc_end), alloc_start)
