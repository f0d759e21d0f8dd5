-- ===== src/Pmm/Reserve.antt =====
-- `reserve_range` of kernel_rs/src/pmm.rs: every page of the range is reserved, no other page is
-- touched.
use agentic_os.Base.{
  ℕ, zero, suc, ◌+◌, ◌*◌, ◌^◌, ◌≤◌, ◌<◌, ◌≡◌, refl, ◌∙◌, inl, inr, List, Bool, true, false, Option,
  some, arith, length, Bool-cases, ltb, leb, ◌==◌, ◌||◌, ◌&&◌,
}
use agentic_os.Bitmap.{reserve_range_pages}
use agentic_os.Bitmap.Laws.{bit_at, test_bit_lem, set_bit_lem, IsBytes}
use agentic_os.Bitmap.Pages.{reserve_range_pages_lem}
use agentic_os.Pmm.{Pmm, page_size, dec, reserve_free, reserve_page, reserve_pages, reserve_range}
use agentic_os.Pmm.Count.{Raised, count_clear-Raised, count_clear-le, count_clear-pos}
use agentic_os.Pmm.Valid.{IsValid}

-- `q` is `p` with the pages that satisfy `in_range` reserved.
pub record Reserved (p q : Pmm) (in_range : ℕ → Bool) : Type 0 where
  pub reserved_bits : (j : ℕ) → bit_at q.reserved j ≡ (in_range j || bit_at p.reserved j)
  pub used_bits : (j : ℕ) → bit_at q.used j ≡ (in_range j || bit_at p.used j)
  pub same_span : q.total_span_pages ≡ p.total_span_pages
  pub same_memory : q.memory ≡ p.memory
  pub valid : IsValid q

abbrev Reserves : Pmm → (ℕ → Bool) → Option Pmm → Type 0
Reserves p in_range r = (q : Pmm) × (r ≡ some q) × Reserved p q in_range

already_reserved :
    (p : Pmm) (i : ℕ) → IsValid p → bit_at p.reserved i ≡ true → Reserved p p (λ j. i == j)
already_reserved p i v e = record {
  reserved_bits = λ j. ground arith;
  used_bits = λ j. ground (arith, v.reserved_used i);
  same_span = refl;
  same_memory = refl;
  valid = v;
}

module _ (p : Pmm) (i : ℕ) (reserved : List ℕ) (v : IsValid p) (h : i < p.total_span_pages)
    (bits : Raised p.reserved reserved i) (bytes : IsBytes reserved)
    (size : length reserved ≡ length p.reserved) where
  -- The page was in use.
  mark_used : bit_at p.used i ≡ true → Reserved p (record p { reserved = reserved }) (λ j. i == j)
  mark_used u = record {
    reserved_bits = bits;
    used_bits = λ j. ground arith;
    same_span = refl;
    same_memory = refl;
    valid = record {
      used_bytes = v.used_bytes;
      reserved_bytes = bytes;
      used_size = v.used_size;
      reserved_size = omega (arith, v.reserved_size);
      span_fits = v.span_fits;
      scan_in = v.scan_in;
      free_count = v.free_count;
      reserved_used = λ j r. ground (arith, bits j, v.reserved_used j);
      page_zero = ground (arith, bits 0, v.page_zero);
    };
  }

  -- The page was free.
  mark_free :
      (used : List ℕ)
      → bit_at p.used i ≡ false
      → IsBytes used
      → length used ≡ length p.used
      → Raised p.used used i
      → Reserved p
          (record p {
            reserved = reserved;
            used = used;
            stats = record (p.stats) { free_pages = dec p.free_pages };
          })
          (λ j. i == j)
  mark_free used n used_bytes used_size used_bits = record {
    reserved_bits = bits;
    used_bits = used_bits;
    same_span = refl;
    same_memory = refl;
    valid = record {
      used_bytes = used_bytes;
      reserved_bytes = bytes;
      used_size = omega (arith, v.used_size);
      reserved_size = omega (arith, v.reserved_size);
      span_fits = v.span_fits;
      scan_in = v.scan_in;
      free_count = omega (
        arith,
        v.free_count,
        v.span_fits,
        count_clear-pos p.used p.total_span_pages i h n,
        count_clear-le p.used p.total_span_pages,
        count_clear-Raised p.used used p.total_span_pages i used_bits h n,
      );
      reserved_used = λ j r. ground (arith, bits j, used_bits j, v.reserved_used j);
      page_zero = ground (arith, bits 0, v.page_zero);
    };
  }

  reserve_free-Reserves :
      Reserves p (λ j. i == j) (reserve_free (record p { reserved = reserved }) i)
  unfolding reserve_free
  reserve_free-Reserves =
      rw (test_bit_lem p.used i (omega (arith, v.used_size))) (elim (Bool-cases (bit_at p.used i)) [
        | inl u ↦ rw u (record p { reserved = reserved }, refl, mark_used u)
        | inr n ↦
            let (used, e, used_bytes, used_size, used_bits) =
              set_bit_lem p.used i v.used_bytes (omega (arith, v.used_size)) in
            rw n (
              rw e (
                record p {
                  reserved = reserved;
                  used = used;
                  stats = record (p.stats) { free_pages = dec p.free_pages };
                },
                refl,
                mark_free used n used_bytes used_size used_bits,
              ))
      ])

-- The counter of reserved memory is not part of the invariant.
Reserved-stats :
    (p q : Pmm) (in_range : ℕ → Bool) (n : ℕ)
    → Reserved p q in_range
    → Reserved p (record q { stats = record (q.stats) { reserved_memory = n } }) in_range
Reserved-stats p q in_range n r = record {
  reserved_bits = r.reserved_bits;
  used_bits = r.used_bits;
  same_span = r.same_span;
  same_memory = r.same_memory;
  valid = record {
    used_bytes = r.valid.used_bytes;
    reserved_bytes = r.valid.reserved_bytes;
    used_size = r.valid.used_size;
    reserved_size = r.valid.reserved_size;
    span_fits = r.valid.span_fits;
    scan_in = r.valid.scan_in;
    free_count = r.valid.free_count;
    reserved_used = r.valid.reserved_used;
    page_zero = r.valid.page_zero;
  };
}

reserve_page-Reserves :
    (p : Pmm) (i : ℕ)
    → IsValid p
    → i < p.total_span_pages
    → Reserves p (λ j. i == j) (reserve_page p i)
unfolding reserve_page
reserve_page-Reserves p i v h =
    rw (test_bit_lem p.reserved i (omega (arith, v.reserved_size)))
      (elim (Bool-cases (bit_at p.reserved i)) [
        | inl r ↦ rw r (p, refl, already_reserved p i v r)
        | inr o ↦
            let (reserved, e, bytes, size, bits) =
              set_bit_lem p.reserved i v.reserved_bytes (omega (arith, v.reserved_size)) in
            let (q, e', r) = reserve_free-Reserves p i reserved v h bits bytes size in
            rw o (rw e (rw e' (_, refl, Reserved-stats p q (λ j. i == j) _ r)))
      ])

-- The pages of the span among `left` pages from page `first`.
abbrev pub in_pages : ℕ → ℕ → ℕ → ℕ → Bool
in_pages span first left j = leb first j && ltb j (first + left) && ltb j span

Reserved-trans :
    (p q r : Pmm) (a b c : ℕ → Bool)
    → Reserved p q a
    → Reserved q r b
    → ((j : ℕ) → c j ≡ (b j || a j))
    → Reserved p r c
Reserved-trans p q r a b c x y both = record {
  reserved_bits = λ j. ground (arith, x.reserved_bits j, y.reserved_bits j, both j);
  used_bits = λ j. ground (arith, x.used_bits j, y.used_bits j, both j);
  same_span = y.same_span ∙ x.same_span;
  same_memory = y.same_memory ∙ x.same_memory;
  valid = y.valid;
}

Reserved-self : (p : Pmm) (a : ℕ → Bool) → IsValid p → ((j : ℕ) → a j ≡ false) → Reserved p p a
Reserved-self p a v none_in = record {
  reserved_bits = λ j. ground (arith, none_in j);
  used_bits = λ j. ground (arith, none_in j);
  same_span = refl;
  same_memory = refl;
  valid = v;
}

reserve_pages-Reserves :
    (left first : ℕ) (p : Pmm)
    → IsValid p
    → Reserves p (in_pages p.total_span_pages first left) (reserve_pages left first p)
unfolding reserve_pages
reserve_pages-Reserves zero first p v =
    (p, refl, Reserved-self p (in_pages p.total_span_pages first 0) v (λ j. ground arith))
reserve_pages-Reserves (suc left) first p v = elim (Bool-cases (leb p.total_span_pages first)) [
  | inl out ↦
      let (q, e, r) = reserve_pages-Reserves left (first + 1) p v in
      rw out (
        q,
        e,
        Reserved-trans p p q (λ j. false) (in_pages p.total_span_pages (first + 1) left)
            (in_pages p.total_span_pages first (suc left))
            (Reserved-self p (λ j. false) v (λ j. refl)) r (λ j. ground arith),
      )
  | inr inside ↦
      let (q, e, r) = reserve_page-Reserves p first v (ground arith) in
      let (q', e', r') = reserve_pages-Reserves left (first + 1) q (r.valid) in
      rw inside (
        rw e (
          q',
          e',
          Reserved-trans p q q' (λ j. first == j) (in_pages q.total_span_pages (first + 1) left)
              (in_pages p.total_span_pages first (suc left)) r r'
              (λ j. ground (arith, r.same_span)),
        ))
]

-- Whether page `j` has a byte of the `length` bytes from `start` on.
abbrev pub has_byte : ℕ → ℕ → ℕ → Bool
has_byte start length j =
    ltb start (j * page_size + page_size) && ltb (j * page_size) (start + length)

in_pages-has_byte :
    (span start length j : ℕ)
    → 0 < length
    → start + length + page_size ≤ 2 ^ 64
    → let (first, pages) = reserve_range_pages start length page_size in
      (has_byte start length j && ltb j span) ≡ in_pages span first pages j
in_pages-has_byte span start length j some_bytes room =
    ground (arith, reserve_range_pages_lem start length j some_bytes room)

-- On a valid state, reserving a range of bytes always succeeds: the pages within the span that have a
-- byte of the range are then reserved and in use, whatever the offset of the range in its first page,
-- every other page and all memory is as it was, and the state stays valid. The range is not empty and
-- ends a page or more below 2 ^ 64.
pub reserve_range_lem :
    (p : Pmm) (start length : ℕ)
    → IsValid p
    → 0 < length
    → start + length + page_size ≤ 2 ^ 64
    → (q : Pmm) × (reserve_range p start length ≡ some q)
      × Reserved p q (λ j. has_byte start length j && ltb j p.total_span_pages)
unfolding reserve_range
reserve_range_lem p start length v some_bytes room =
    let (first, pages) = reserve_range_pages start length page_size in
    let (q, e, r) = reserve_pages-Reserves pages first p v in
    (
      q,
      e,
      Reserved-trans p p q (λ j. false) (in_pages p.total_span_pages first pages)
          (λ j. has_byte start length j && ltb j p.total_span_pages)
          (Reserved-self p (λ j. false) v (λ j. refl)) r
          (λ j.
            ground (arith, in_pages-has_byte p.total_span_pages start length j some_bytes room)),
    )
