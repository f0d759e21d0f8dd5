-- ===== src/Heap/Tests.antt =====
-- Runs of the definitions of kernel_rs/src/heap.rs, and examples of the theorems about them.
use agentic_os.Base.{ℕ, ◌^◌, ◌≡◌, ◌⊎◌, refl, List, [], ◌∷◌, true, none, some, arith}
use agentic_os.Heap.{Node, fits, add_free_region, find_and_remove}
use agentic_os.Heap.Insert.{Ordered}
use agentic_os.Heap.Cut.{Cut, NoRoom, find_and_remove_lem}
use agentic_os.Heap.Grow.{Memory}

abbrev node : ℕ → ℕ → Node
node addr size = record { addr = addr; size = size }

abbrev two_nodes : List Node
two_nodes = node 4096 64 ∷ node 8192 4096 ∷ []

two_nodes-Ordered : Ordered 0 two_nodes
two_nodes-Ordered = (omega arith, omega arith, (omega arith, omega arith, tt))

-- The region joins both of its neighbours.
merged : add_free_region (node 4096 64 ∷ node 4192 32 ∷ []) 4160 32 ≡ node 4096 128 ∷ []
unfolding add_free_region
merged = refl

-- The node has no aligned place for the block.
cut_at : find_and_remove (node 4112 4000 ∷ []) 64 4096 ≡ none
unfolding find_and_remove
cut_at = refl

find_and_remove_example :
    ((find_and_remove two_nodes 128 (2 ^ 4) ≡ none) × NoRoom 128 4 two_nodes)
    ⊎ ((r : List Node × ℕ) × (find_and_remove two_nodes 128 (2 ^ 4) ≡ some r)
        × Cut 128 4 two_nodes r)
find_and_remove_example =
    find_and_remove_lem two_nodes 128 4 two_nodes-Ordered
      ((omega arith, omega arith), ((omega arith, omega arith), tt)) (omega arith)

-- A block of 2 ^ 40 bytes ends at 0 by the wrap of its end, and so fits at the start of the heap.
wrapped_fit : fits (2 ^ 40) 8 (node 0xFFFFFF0000000000 8388608) ≡ true
unfolding fits
wrapped_fit = refl

abbrev memory : Memory
memory = record {
  nodes = node 8192 4096 ∷ [];
  heap_end = 12288;
  pmm = record {
    used = 1 ∷ [];
    reserved = 1 ∷ [];
    total_span_pages = 8;
    last_scanned_page = 0;
    stats = record {
      total_physical_span = 32768;
      total_usable_memory = 32768;
      reserved_memory = 4096;
      free_pages = 7;
      used_pages = 1;
    };
    memory = λ a. 5;
  };
  mapped = [];
}
