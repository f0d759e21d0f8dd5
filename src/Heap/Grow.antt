-- ===== src/Heap/Grow.antt =====
-- The allocator calls of kernel_rs/src/heap.rs over the free list and the pages of
-- kernel_rs/src/pmm.rs.
use agentic_os.Base.{
  ℕ, zero, suc, ◌+◌, ◌-◌, ◌*◌, ◌/◌, ◌≡◌, ◌^◌, List, ◌∷◌, Bool, true, false, Option, none, some,
  ◌>>=◌, max, ◌==◌, u64, if◌then◌else◌,
}
use agentic_os.Pmm.{Pmm, page_size, alloc_page}
use agentic_os.Heap.{Node, node_size, add_free_region, find_and_remove}
use agentic_os.Heap.Insert.{covers, is_free, Ordered}
use agentic_os.Heap.Cut.{Cut}

-- `LockedHeap`, the page allocator, and the heap pages mapped so far: virtual and physical address.
pub record Memory : Type 0 where
  pub nodes : List Node
  pub heap_end : ℕ
  pub pmm : Pmm
  pub mapped : List (ℕ × ℕ)

abbrev pub heap_virtual_base : ℕ
heap_virtual_base = 0xFFFFFF0000000000

abbrev pub initial_heap_pages : ℕ
initial_heap_pages = 2048

-- The loop of `grow_by` from page `p` on, and whether it came to its end. Without a free page it
-- returns at once; the pages mapped until then stay mapped.
unfoldable pub map_pages : ℕ → ℕ → ℕ → Memory → Option (Memory × Bool)
map_pages zero p start m = some (m, true)
map_pages (suc left) p start m = do
  page ← alloc_page m.pmm
  let phys = page.1
  let allocated : Memory = record m { pmm = page.0 }
  let mapped : Memory = record allocated { mapped = (u64 (start + p * page_size), phys) ∷ m.mapped }
  let rest = map_pages left (p + 1) start mapped
  if phys == 0 then some (allocated, false) else rest

unfoldable pub grow_by : Memory → ℕ → Option Memory
unfolding map_pages
grow_by m pages = do
  r ← map_pages pages 0 m.heap_end m
  let m' = r.0
  let grown : Memory = record m' {
    heap_end = u64 (m'.heap_end + pages * page_size);
    nodes = add_free_region m'.nodes m.heap_end (pages * page_size);
  }
  some (if r.1 then grown else m')

-- A block for the request, `none` when no node has room.
unfoldable pub take_block : Memory → ℕ → ℕ → Option (Memory × ℕ)
take_block m size align = do
  found ← find_and_remove m.nodes size align
  some (record m { nodes = found.0 }, found.1)

-- The second try, whose failure is a null pointer.
unfoldable pub or_null : Memory → Option (Memory × ℕ) → Memory × ℕ
or_null m none = (m, 0)
or_null m (some found) = found

-- The pages by which a heap without room grows.
unfoldable pub pages_to_grow : ℕ → ℕ → ℕ
pages_to_grow size align =
    max (u64 (u64 (size + align + page_size) + page_size - 1) / page_size) 256

-- `GlobalAlloc::alloc` for a layout.
unfoldable pub alloc : Memory → ℕ → ℕ → Option (Memory × ℕ)
unfolding take_block grow_by or_null pages_to_grow
alloc m layout_size layout_align =
    let size = max layout_size node_size in
    let align = max layout_align 8 in
    elim (take_block m size align) [
      | some found ↦ some found
      | none ↦ grow_by m (pages_to_grow size align) >>= λ m'.
          some (or_null m' (take_block m' size align))
    ]

-- `GlobalAlloc::dealloc`
unfoldable pub dealloc : Memory → ℕ → ℕ → Memory
dealloc m ptr layout_size = record m {
  nodes = add_free_region m.nodes ptr (max layout_size node_size);
}

-- `init`
unfoldable pub init : Memory → Option Memory
unfolding grow_by
init m = grow_by (record m { heap_end = heap_virtual_base }) initial_heap_pages

-- What `alloc` and `dealloc` of its block do together.
abbrev pub GivenBack : Memory → ℕ → ℕ → Memory × ℕ → Type 0
GivenBack m layout_size k (m', start) =
    let after = dealloc m' start layout_size in
    ((q : ℕ) × (start ≡ q * 2 ^ k))
    × ((x : ℕ) → covers start layout_size x ≡ true → is_free m.nodes x ≡ true)
    × ((x : ℕ) → covers start layout_size x ≡ true → is_free m'.nodes x ≡ false)
    × Ordered 0 after.nodes
    × ((x : ℕ) → covers start (max layout_size node_size) x ≡ true → is_free after.nodes x ≡ true)
    × ((x : ℕ) → is_free after.nodes x ≡ true → is_free m.nodes x ≡ true)
