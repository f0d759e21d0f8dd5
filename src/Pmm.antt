-- ===== src/Pmm.antt =====
-- The physical page allocator, kernel_rs/src/pmm.rs: two bitmaps over the pages of the physical
-- span, the position of the last scan and the counters. The bitmaps are kept apart from `memory`:
-- `init` reserves the pages that hold them. Each entry point runs with interrupts masked.
pub mod Count
pub mod Valid
pub mod Alloc
pub mod Free
pub mod Reserve
mod Tests
use agentic_os.Base.{
  ℕ, zero, suc, ◌+◌, ◌-◌, ◌*◌, ◌/◌, ◌%◌, ◌^◌, List, [], ◌∷◌, Bool, true, false, not, ◌&&◌, ◌||◌,
  Option, none, some, ltb, leb, ◌==◌, if◌then◌else◌, ◌>>=◌, u64,
}
use agentic_os.Bitmap.{set_bit, clear_bit, test_bit, reserve_range_pages}

abbrev pub page_size : ℕ
page_size = 4096

-- `PmmStats`
pub record PmmStats : Type 0 where
  pub total_physical_span : ℕ
  pub total_usable_memory : ℕ
  pub reserved_memory : ℕ
  pub free_pages : ℕ
  pub used_pages : ℕ

pub record Pmm : Type 0 where
  pub used : List ℕ
  pub reserved : List ℕ
  pub total_span_pages : ℕ
  pub last_scanned_page : ℕ
  pub stats : PmmStats
  pub open stats use *
  pub memory : ℕ → ℕ

-- `x -= 1` on a u64, which wraps in a release build.
abbrev pub dec : ℕ → ℕ
dec n = (n + 2 ^ 64 - 1) % 2 ^ 64

-- `is_real_memory`
unfoldable pub is_real_memory : ℕ → Bool
is_real_memory ty = (leb 1 ty && leb ty 7) || ty == 9 || ty == 10

-- `write_bytes(p2v(addr), 0, PAGE_SIZE)`
abbrev pub zero_page : ℕ → (ℕ → ℕ) → ℕ → ℕ
zero_page addr memory a = if leb addr a && ltb a (addr + page_size) then 0 else memory a

-- The `while` loop of `alloc_page_locked` with `left` pages to look at: the first free page.
pub scan : List ℕ → ℕ → ℕ → Option (Option ℕ)
scan used zero i = some none
scan used (suc left) i =
    let rest = scan used left (i + 1) in
    test_bit used i >>= λ taken. if taken then rest else some (some i)

-- The allocator after it hands out page `i`, with the updated bitmap.
abbrev pub taken : Pmm → ℕ → List ℕ → Pmm
taken p i used = record p {
  used = used;
  last_scanned_page = i;
  stats = record (p.stats) { free_pages = dec p.free_pages; used_pages = u64 (p.used_pages + 1) };
  memory = zero_page (i * page_size) p.memory;
}

-- The body of the loop at a free page.
pub take_page : Pmm → ℕ → Option (Pmm × ℕ)
take_page p i = do used ← set_bit p.used i; some (taken p i used, i * page_size)

-- `alloc_page_locked` with fuel for its call of itself; the result of that call waits in a `let`.
pub alloc_rounds : ℕ → Pmm → Option (Pmm × ℕ)
alloc_rounds zero p = none
alloc_rounds (suc fuel) p =
    let again = alloc_rounds fuel (record p { last_scanned_page = 0 }) in
    scan p.used (p.total_span_pages - p.last_scanned_page) p.last_scanned_page >>= λ found.
    elim found [
      | some i ↦ take_page p i
      | none ↦ if ltb 0 p.last_scanned_page then again else some (p, 0)
    ]

-- `alloc_page`: it calls itself at most once, since the second time it starts from page 0.
unfoldable pub alloc_page : Pmm → Option (Pmm × ℕ)
unfolding alloc_rounds
alloc_page p = alloc_rounds 2 p

-- The allocator after it takes page `i` back, with the updated bitmap.
abbrev pub released : Pmm → ℕ → List ℕ → Pmm
released p i used = record p {
  used = used;
  last_scanned_page = if ltb i p.last_scanned_page then i else p.last_scanned_page;
  stats = record (p.stats) { free_pages = u64 (p.free_pages + 1); used_pages = dec p.used_pages };
}

-- The last part of `free_page_locked`.
pub release_page : Pmm → ℕ → Option Pmm
release_page p i = do used ← clear_bit p.used i; some (released p i used)

-- The two tests of the bitmaps in `free_page_locked`.
pub free_known : Pmm → ℕ → Option Pmm
unfolding release_page
free_known p i = do
  is_reserved ← test_bit p.reserved i
  if is_reserved
      then some p
      else (test_bit p.used i >>= λ is_used. if is_used then release_page p i else some p)

-- `free_page`: a refused address leaves the allocator as it was.
unfoldable pub free_page : Pmm → ℕ → Option Pmm
unfolding free_known
free_page p addr =
    if addr == 0 || not (addr % page_size == 0) || leb p.total_span_pages (addr / page_size)
    then some p
    else free_known p (addr / page_size)

-- The body of the loop of `reserve_range` at a page within the span.
pub reserve_free : Pmm → ℕ → Option Pmm
reserve_free p i = do
  is_used ← test_bit p.used i
  if is_used
      then some p
      else (set_bit p.used i >>= λ used.
          some
            (record p { used = used; stats = record (p.stats) { free_pages = dec p.free_pages } }))

pub reserve_page : Pmm → ℕ → Option Pmm
unfolding reserve_free
reserve_page p i = do
  is_reserved ← test_bit p.reserved i
  if is_reserved
      then some p
      else (set_bit p.reserved i >>= λ reserved.
          reserve_free (record p { reserved = reserved }) i >>= λ q. some (record q {
            stats = record (q.stats) { reserved_memory = u64 (q.reserved_memory + page_size) };
          }))

pub reserve_pages : ℕ → ℕ → Pmm → Option Pmm
reserve_pages zero i p = some p
reserve_pages (suc left) i p =
    (if leb p.total_span_pages i then some p else reserve_page p i) >>= λ q.
    reserve_pages left (i + 1) q

-- `reserve_range`
unfoldable pub reserve_range : Pmm → ℕ → ℕ → Option Pmm
unfolding reserve_pages
reserve_range p start length =
    let (first, pages) = reserve_range_pages start length page_size in reserve_pages pages first p
