-- ===== src/Bitmap.antt =====
-- The bit operations of kernel_common/src/bitmap.rs on a slice of bytes, and the page arithmetic of
-- kernel_common/src/lib.rs and pagetable.rs.
pub mod Laws
pub mod Pages
mod Tests
use agentic_os.Base.{
  ℕ, ◌+◌, ◌-◌, ◌*◌, ◌/◌, ◌%◌, ◌^◌, List, [], ◌∷◌, Bool, not, Option, none, some, get_elem?, set,
  bit_and, bit_or, ◌==◌, ◌>>=◌, u64, if◌then◌else◌,
}

-- `bitmap::set`; `none` is the panic of an index out of range, here and below.
unfoldable pub set_bit : List ℕ → ℕ → Option (List ℕ)
set_bit bitmap i =
    get_elem? bitmap (i / 8) >>= λ b. some (set bitmap (i / 8) (bit_or b (2 ^ (i % 8))))

-- `bitmap::clear`; `!(1 << k)` on a byte is `255 - 2 ^ k`.
unfoldable pub clear_bit : List ℕ → ℕ → Option (List ℕ)
clear_bit bitmap i =
    get_elem? bitmap (i / 8) >>= λ b. some (set bitmap (i / 8) (bit_and b (255 - 2 ^ (i % 8))))

-- `bitmap::test`
unfoldable pub test_bit : List ℕ → ℕ → Option Bool
test_bit bitmap i = get_elem? bitmap (i / 8) >>= λ b. some (not (bit_and b (2 ^ (i % 8)) == 0))

-- `bitmap::reserve_range_pages` on u64, wrapping: the first page and the number of pages.
unfoldable pub reserve_range_pages : ℕ → ℕ → ℕ → ℕ × ℕ
reserve_range_pages start length page_size =
    let aligned = (length + page_size + 2 ^ 64 - 1) % 2 ^ 64 / page_size in
    let unaligned = (length + start % page_size + page_size + 2 ^ 64 - 1) % 2 ^ 64 / page_size in
    (start / page_size, if start % page_size == 0 then aligned else unaligned)

-- `align_up`: `!(align - 1)` on a u64 is `2 ^ 64 - align`.
unfoldable pub align_up : ℕ → ℕ → ℕ
align_up addr align = bit_and ((addr + align + 2 ^ 64 - 1) % 2 ^ 64) (2 ^ 64 - align)

-- `pages_for`
unfoldable pub pages_for : ℕ → ℕ → ℕ
pages_for bytes page_size = (bytes + page_size + 2 ^ 64 - 1) % 2 ^ 64 / page_size

-- `split_indices`: the four table indices of a virtual address.
unfoldable pub split_indices : ℕ → ℕ × ℕ × ℕ × ℕ
split_indices vaddr = (
  bit_and (vaddr / 2 ^ 39) 0x1ff,
  bit_and (vaddr / 2 ^ 30) 0x1ff,
  bit_and (vaddr / 2 ^ 21) 0x1ff,
  bit_and (vaddr / 2 ^ 12) 0x1ff,
)

abbrev pub addr_mask : ℕ
addr_mask = 0x000F_FFFF_FFFF_F000

-- `frame_from_entry`
unfoldable pub frame_from_entry : ℕ → ℕ
frame_from_entry entry = bit_and entry addr_mask
