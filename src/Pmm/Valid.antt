-- ===== src/Pmm/Valid.antt =====
-- The invariant of the page allocator, kernel_rs/src/pmm.rs.
use agentic_os.Base.{ℕ, ◌*◌, ◌≤◌, ◌^◌, ◌≡◌, true, length}
use agentic_os.Bitmap.Laws.{IsBytes, bit_at}
use agentic_os.Pmm.{Pmm}
use agentic_os.Pmm.Count.{count_clear}

pub record IsValid (p : Pmm) : Type 0 where
  pub used_bytes : IsBytes p.used
  pub reserved_bytes : IsBytes p.reserved
  -- Both bitmaps cover the span.
  pub used_size : p.total_span_pages ≤ 8 * length p.used
  pub reserved_size : p.total_span_pages ≤ 8 * length p.reserved
  -- Page addresses fit a u64.
  pub span_fits : p.total_span_pages ≤ 2 ^ 52
  pub scan_in : p.last_scanned_page ≤ p.total_span_pages
  -- The counter is the number of clear bits.
  pub free_count : p.free_pages ≡ count_clear p.used p.total_span_pages
  pub reserved_used : (i : ℕ) → bit_at p.reserved i ≡ true → bit_at p.used i ≡ true
  pub page_zero : bit_at p.reserved 0 ≡ true
