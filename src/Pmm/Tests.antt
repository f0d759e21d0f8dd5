-- ===== src/Pmm/Tests.antt =====
-- The page allocator's theorems at a span of eight pages.
use agentic_os.Base.{◌≡◌, refl, [], ◌∷◌, some, ◌&&◌, ltb, arith}
use agentic_os.Bitmap.{test_bit, set_bit}
use agentic_os.Pmm.{Pmm, alloc_page, free_page, reserve_range, scan, take_page, taken}
use agentic_os.Pmm.Count.{count_clear}
use agentic_os.Pmm.Valid.{IsValid}
use agentic_os.Pmm.Alloc.{Outcome, alloc_page_lem}
use agentic_os.Pmm.Free.{FreeOutcome, Restored, free_page_lem, free_page-alloc_page}
use agentic_os.Pmm.Reserve.{Reserved, has_byte, reserve_range_lem}

-- Page 0 alone is in use.
abbrev small : Pmm
small = record {
  used = 1 ∷ [];
  reserved = 1 ∷ [];
  total_span_pages = 8;
  last_scanned_page = 0;
  stats = record {
    total_physical_span = 32768;
    total_usable_memory = 32768;
    reserved_memory = 4096;
    free_pages = 7;
    used_pages = 1;
  };
  memory = λ a. 5;
}

small-IsValid : IsValid small
unfolding count_clear
small-IsValid = record {
  used_bytes = (omega arith, tt);
  reserved_bytes = (omega arith, tt);
  used_size = omega arith;
  reserved_size = omega arith;
  span_fits = omega arith;
  scan_in = omega arith;
  free_count = refl;
  reserved_used = λ i h. h;
  page_zero = refl;
}

alloc_page_example : Outcome small (alloc_page small)
alloc_page_example = alloc_page_lem small small-IsValid

free_page_example : FreeOutcome small 4096 (free_page small 4096)
free_page_example = free_page_lem small 4096 small-IsValid

abbrev after_alloc : Pmm
after_alloc = taken small 1 (3 ∷ [])

alloc_small : alloc_page small ≡ some (after_alloc, 4096)
unfolding alloc_page scan take_page test_bit set_bit
alloc_small = refl

free_page-alloc_page_example : (r : Pmm) × (free_page after_alloc 4096 ≡ some r) × Restored small r
free_page-alloc_page_example =
    free_page-alloc_page small after_alloc 4096 small-IsValid alloc_small (omega arith)

refuse_small : free_page small 4096 ≡ some small
unfolding free_page test_bit
refuse_small = refl

-- Bytes 5000 to 9999 lie in pages 1 and 2.
reserve_range_example :
    (q : Pmm) × (reserve_range small 5000 5000 ≡ some q)
    × Reserved small q (λ j. has_byte 5000 5000 j && ltb j 8)
reserve_range_example = reserve_range_lem small 5000 5000 small-IsValid (omega arith) (omega arith)
