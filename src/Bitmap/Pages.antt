-- ===== src/Bitmap/Pages.antt =====
-- Pages of byte ranges and the table indices of virtual addresses, kernel_common/src/bitmap.rs,
-- lib.rs and pagetable.rs.
use agentic_os.Base.{
  ℕ, ◌+◌, ◌-◌, ◌*◌, ◌/◌, ◌%◌, ◌^◌, ◌≤◌, ◌<◌, ◌≡◌, ◌≢◌, ◌↔◌, arith, Bool-cases, ◌==◌, inl, inr,
}
use agentic_os.Base.Bits.{bit_and-ones}
use agentic_os.Bitmap.{reserve_range_pages, split_indices}

-- Pages `first` to `first + last` are those that hold a byte of the range.
abbrev Names : ℕ → ℕ → ℕ → ℕ → Type 0
Names start length page last =
    ((start / 4096 ≤ page) × (page < start / 4096 + last))
    ↔ ((start < page * 4096 + 4096) × (page * 4096 < start + length))

aligned :
    (start length page : ℕ)
    → 0 < length
    → start + length + 4096 ≤ 2 ^ 64
    → start % 4096 ≡ 0
    → Names start length page ((length + 4096 + 2 ^ 64 - 1) % 2 ^ 64 / 4096)
aligned start length page h fits z =
    (λ x. (omega (arith, x.0), omega (arith, x.1)), λ x. (omega (arith, x.0), omega (arith, x.1)))

unaligned :
    (start length page : ℕ)
    → 0 < length
    → start + length + 4096 ≤ 2 ^ 64
    → start % 4096 ≢ 0
    → Names start length page ((length + start % 4096 + 4096 + 2 ^ 64 - 1) % 2 ^ 64 / 4096)
unaligned start length page h fits n =
    (λ x. (omega (arith, x.0), omega (arith, x.1)), λ x. (omega (arith, x.0), omega (arith, x.1)))

-- For a range of bytes that is not empty and ends more than a page below 2 ^ 64, a page is among
-- those that `reserve_range_pages` names exactly when it holds a byte of the range.
pub reserve_range_pages_lem :
    (start length page : ℕ)
    → 0 < length
    → start + length + 4096 ≤ 2 ^ 64
    → let (first, pages) = reserve_range_pages start length 4096 in
      ((first ≤ page) × (page < first + pages))
      ↔ ((start < page * 4096 + 4096) × (page * 4096 < start + length))
unfolding reserve_range_pages
reserve_range_pages_lem start length page h fits = elim (Bool-cases (start % 4096 == 0)) [
  | inl z ↦ rw z (aligned start length page h fits (ground arith))
  | inr n ↦ rw n (unaligned start length page h fits (ground arith))
]

-- The four indices of an address below 2 ^ 48 are below 512, and with its offset in the page they
-- make up the address.
pub split_indices_lem :
    (vaddr : ℕ)
    → vaddr < 2 ^ 48
    → let (i4, i3, i2, i1) = split_indices vaddr in
      (i4 < 512)
      × (i3 < 512)
      × (i2 < 512)
      × (i1 < 512)
      × (i4 * 2 ^ 39 + i3 * 2 ^ 30 + i2 * 2 ^ 21 + i1 * 2 ^ 12 + vaddr % 2 ^ 12 ≡ vaddr)
unfolding split_indices
split_indices_lem vaddr h = rw (bit_and-ones 9 (vaddr / 2 ^ 39)) (
    rw (bit_and-ones 9 (vaddr / 2 ^ 30)) (
      rw (bit_and-ones 9 (vaddr / 2 ^ 21)) (
        rw (bit_and-ones 9 (vaddr / 2 ^ 12))
          (omega arith, omega arith, omega arith, omega arith, omega arith))))
