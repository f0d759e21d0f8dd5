-- ===== src/Pmm/Free.antt =====
-- `free_page` of kernel_rs/src/pmm.rs: which addresses it refuses, and how it undoes an allocation.
use agentic_os.Base.{
  ℕ, ◌+◌, ◌*◌, ◌/◌, ◌%◌, ◌≤◌, ◌<◌, ◌≡◌, ◌≢◌, refl, sym, ap, ◌∙◌, subst, ◌⊎◌, inl, inr, List, Bool,
  true, false, Option, some, arith, length, Bool-cases, leb, ◌==◌, ◌||◌, ◌&&◌, not, u64,
}
use agentic_os.Bitmap.Laws.{bit_at, test_bit_lem, clear_bit_lem, IsBytes}
use agentic_os.Pmm.{Pmm, page_size, free_page, free_known, release_page, released, alloc_page}
use agentic_os.Pmm.Count.{Lowered, count_clear-Lowered, count_clear-le}
use agentic_os.Pmm.Valid.{IsValid}
use agentic_os.Pmm.Alloc.{Allocated, alloc_page_lem}

-- `q` is `p` with page `i` taken back.
pub record Freed (p q : Pmm) (i : ℕ) : Type 0 where
  pub was_used : bit_at p.used i ≡ true
  pub in_span : i < p.total_span_pages
  pub not_reserved : bit_at p.reserved i ≡ false
  pub lowered : Lowered p.used q.used i
  pub same_reserved : q.reserved ≡ p.reserved
  pub same_span : q.total_span_pages ≡ p.total_span_pages
  pub one_more : q.free_pages ≡ p.free_pages + 1
  pub scan_from : q.last_scanned_page ≤ i
  pub same_memory : q.memory ≡ p.memory
  pub valid : IsValid q

-- The addresses that the allocator does not take back: not a page of the span, page 0, a reserved
-- page, or a page that is free.
abbrev pub Refused : Pmm → ℕ → Type 0
Refused p addr =
    (addr ≡ 0)
    ⊎ (addr % page_size ≢ 0)
    ⊎ (p.total_span_pages ≤ addr / page_size)
    ⊎ (bit_at p.reserved (addr / page_size) ≡ true)
    ⊎ (bit_at p.used (addr / page_size) ≡ false)

module _ (p : Pmm) (i : ℕ) (v : IsValid p) (h : i < p.total_span_pages)
    (full : bit_at p.used i ≡ true) (open_page : bit_at p.reserved i ≡ false) (used : List ℕ)
    (bits : Lowered p.used used i) where
  one_more_free : u64 (p.free_pages + 1) ≡ p.free_pages + 1
  one_more_free = omega (arith, v.free_count, v.span_fits, count_clear-le p.used p.total_span_pages)

  released-IsValid : IsBytes used → length used ≡ length p.used → IsValid (released p i used)
  released-IsValid bytes size = record {
    used_bytes = bytes;
    reserved_bytes = v.reserved_bytes;
    used_size = omega (arith, v.used_size);
    reserved_size = v.reserved_size;
    span_fits = v.span_fits;
    scan_in = ground (arith, v.scan_in);
    free_count = omega (
      arith,
      v.free_count,
      one_more_free,
      count_clear-Lowered p.used used p.total_span_pages i bits h full,
    );
    reserved_used = λ j r. ground (arith, bits j, v.reserved_used j);
    page_zero = v.page_zero;
  }

  released-Freed : IsBytes used → length used ≡ length p.used → Freed p (released p i used) i
  released-Freed bytes size = record {
    was_used = full;
    in_span = h;
    not_reserved = open_page;
    lowered = bits;
    same_reserved = refl;
    same_span = refl;
    one_more = one_more_free;
    scan_from = ground arith;
    same_memory = refl;
    valid = released-IsValid bytes size;
  }

-- The answer of `free_page`.
abbrev pub FreeOutcome : Pmm → ℕ → Option Pmm → Type 0
FreeOutcome p addr r =
    ((r ≡ some p) × Refused p addr)
    ⊎ ((q : Pmm) × (r ≡ some q)
        × (addr ≢ 0)
        × (addr % page_size ≡ 0)
        × Freed p q (addr / page_size))

release_page-Freed :
    (p : Pmm) (i : ℕ)
    → IsValid p
    → i < p.total_span_pages
    → bit_at p.used i ≡ true
    → bit_at p.reserved i ≡ false
    → (q : Pmm) × (release_page p i ≡ some q) × Freed p q i
unfolding release_page
release_page-Freed p i v h full open_page =
    let (used, e, bytes, size, bits) =
      clear_bit_lem p.used i v.used_bytes (omega (arith, v.used_size)) in
    (released p i used, rw e, released-Freed p i v h full open_page used bits bytes size)

free_known-Outcome :
    (p : Pmm) (addr : ℕ)
    → IsValid p
    → addr ≢ 0
    → addr % page_size ≡ 0
    → addr / page_size < p.total_span_pages
    → FreeOutcome p addr (free_known p (addr / page_size))
unfolding free_known
free_known-Outcome p addr v nz al h =
    rw (test_bit_lem p.reserved (addr / page_size) (omega (arith, v.reserved_size)))
      (elim (Bool-cases (bit_at p.reserved (addr / page_size))) [
        | inl r ↦ rw r (inl (refl, inr (inr (inr (inl refl)))))
        | inr o ↦ rw o (
            rw (test_bit_lem p.used (addr / page_size) (omega (arith, v.used_size)))
              (elim (Bool-cases (bit_at p.used (addr / page_size))) [
                | inl u ↦ rw u (
                    let (q, e, f) = release_page-Freed p (addr / page_size) v h u o in
                    inr (q, e, nz, al, f))
                | inr n ↦ rw n (inl (refl, inr (inr (inr (inr refl)))))
              ]))
      ])

-- The test before the bitmaps are read.
abbrev bad_addr : Pmm → ℕ → Bool
bad_addr p addr =
    addr == 0 || not (addr % page_size == 0) || leb p.total_span_pages (addr / page_size)

bad_addr-Refused : (p : Pmm) (addr : ℕ) → bad_addr p addr ≡ true → Refused p addr
bad_addr-Refused p addr h = elim (Bool-cases (addr == 0)) [
  | inl z ↦ inl (ground arith)
  | inr nz ↦ elim (Bool-cases (addr % page_size == 0)) [
    | inl al ↦ inr (inr (inl (ground arith)))
    | inr un ↦ inr (inl (ground arith))
  ]
]

-- The allocator of valid state always answers. It refuses an address exactly by the tests of
-- `Refused` and then keeps its state; any other address is a page of the span in use and not
-- reserved, whose bit alone is lowered, with one page more counted free, no memory changed and the
-- next scan from that page or earlier. The state stays valid.
pub free_page_lem : (p : Pmm) (addr : ℕ) → IsValid p → FreeOutcome p addr (free_page p addr)
unfolding free_page
free_page_lem p addr v = elim (Bool-cases (bad_addr p addr)) [
  | inl bad ↦ rw bad (inl (refl, bad_addr-Refused p addr bad))
  | inr good ↦ rw good (free_known-Outcome p addr v (ground arith) (ground arith) (ground arith))
]

some-inj {ℓ} : {A : Type ℓ} {x y : A} → some x ≡ some y → x ≡ y
some-inj h = cc

-- In a valid state, a page that was given back once is refused the second time: the second call
-- changes nothing.
pub free_page-free_page :
    (p q : Pmm) (addr : ℕ) → IsValid p → free_page p addr ≡ some q → free_page q addr ≡ some q
free_page-free_page p q addr v e = elim (free_page_lem p addr v) [
  | inl (e', bad) ↦ subst (λ x. free_page x addr ≡ some x) (some-inj (sym e' ∙ e)) e'
  | inr (q', e', nz, al, f) ↦
      subst (λ x. free_page x addr ≡ some x) (some-inj (sym e' ∙ e))
        (elim (free_page_lem q' addr f.valid) [
          | inl (e'', bad) ↦ e''
          | inr (r, e'', nz', al', g) ↦
              absurd (ground (arith, f.lowered (addr / page_size), g.was_used))
        ])
]

-- `r` differs from `p` at most in the memory, the next page of the scan and the representation.
pub record Restored (p r : Pmm) : Type 0 where
  pub same_bits : (j : ℕ) → bit_at r.used j ≡ bit_at p.used j
  pub same_reserved : r.reserved ≡ p.reserved
  pub same_free : r.free_pages ≡ p.free_pages
  pub valid : IsValid r

Allocated-Freed-Restored : (p q r : Pmm) (i : ℕ) → Allocated p q i → Freed q r i → Restored p r
Allocated-Freed-Restored p q r i a f = record {
  same_bits = λ j.
      restored_bit (i == j) (bit_at p.used j) (bit_at q.used j) (bit_at r.used j) (a.raised j)
        (f.lowered j) (λ h. subst (λ k. bit_at p.used k ≡ false) (ground arith) a.was_free);
  same_reserved = f.same_reserved ∙ a.same_reserved;
  same_free = omega (arith, a.one_less, f.one_more);
  valid = f.valid;
}
  where
    restored_bit :
        (same before mid after : Bool)
        → mid ≡ (same || before)
        → after ≡ (not same && mid)
        → (same ≡ true → before ≡ false)
        → after ≡ before
    restored_bit true before mid after m n h = n ∙ sym (h refl)
    restored_bit false before mid after m n h = n ∙ m

abbrev RefusedAt : Pmm → ℕ → ℕ → Type 0
RefusedAt p addr k =
    (addr ≡ 0)
    ⊎ (addr % page_size ≢ 0)
    ⊎ (p.total_span_pages ≤ k)
    ⊎ (bit_at p.reserved k ≡ true)
    ⊎ (bit_at p.used k ≡ false)

Allocated-accepted : (p q : Pmm) (i : ℕ) → Allocated p q i → RefusedAt q (i * page_size) i → ⊥
Allocated-accepted p q i a (inl z) = omega (arith, a.not_zero)
Allocated-accepted p q i a (inr (inl u)) = u (omega arith)
Allocated-accepted p q i a (inr (inr (inl o))) = omega (arith, a.in_span, a.same_span)
Allocated-accepted p q i a (inr (inr (inr (inl r)))) =
    ground (arith, a.not_reserved, ap (λ x. bit_at x i) (a.same_reserved))
Allocated-accepted p q i a (inr (inr (inr (inr u)))) = ground (arith, a.raised i)

restore_page :
    (p q : Pmm) (i : ℕ)
    → Allocated p q i
    → (r : Pmm) × (free_page q (i * page_size) ≡ some r) × Restored p r
restore_page p q i a = elim (free_page_lem q (i * page_size) a.valid) [
  | inl (e, bad) ↦
      absurd (Allocated-accepted p q i a (subst (RefusedAt q (i * page_size)) page bad))
  | inr (r, e, nz, al, f) ↦
      (r, e, Allocated-Freed-Restored p q r i a (subst (λ k. Freed q r k) page f))
]
  where
    page : i * page_size / page_size ≡ i
    page = omega arith

-- From a valid state, an allocated page can be given back, and the bitmap, the reserved pages and
-- the count of free pages are then what they were.
pub free_page-alloc_page :
    (p q : Pmm) (addr : ℕ)
    → IsValid p
    → alloc_page p ≡ some (q, addr)
    → addr ≢ 0
    → (r : Pmm) × (free_page q addr ≡ some r) × Restored p r
free_page-alloc_page p q addr v e nz = elim (alloc_page_lem p v) [
  | inr (q', e', full, v') ↦ absurd (nz (ap (λ x. x.1) (some-inj (sym e ∙ e'))))
  | inl (q', i, e', a) ↦
      subst (λ x. (r : Pmm) × (free_page (x.0) (x.1) ≡ some r) × Restored p r)
        (some-inj (sym e' ∙ e)) (restore_page p q' i a)
]
