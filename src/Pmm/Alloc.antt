-- ===== src/Pmm/Alloc.antt =====
-- `alloc_page` of kernel_rs/src/pmm.rs: it finds a free page if there is one.
use agentic_os.Base.{
  ℕ, zero, suc, ◌+◌, ◌-◌, ◌*◌, ◌≤◌, ◌<◌, ◌≡◌, ◌≢◌, refl, ◌⊎◌, inl, inr, List, true, false, Option,
  none, some, arith, length, Bool-cases, ltb,
}
use agentic_os.Bitmap.Laws.{bit_at, test_bit_lem, set_bit_lem, IsBytes}
use agentic_os.Pmm.{
  Pmm, page_size, scan, take_page, taken, dec, alloc_rounds, alloc_page, zero_page,
}
use agentic_os.Pmm.Count.{Raised, count_clear-Raised, count_clear-pos, count_clear-le}
use agentic_os.Pmm.Valid.{IsValid}

-- What the scan of `left` pages from page `i` found.
abbrev ScanResult : List ℕ → ℕ → ℕ → Option (Option ℕ) → Type 0
ScanResult used left i none = ⊥
ScanResult used left i (some none) = (j : ℕ) → i ≤ j → j < i + left → bit_at used j ≡ true
ScanResult used left i (some (some f)) = (i ≤ f) × (f < i + left) × (bit_at used f ≡ false)

ScanResult-suc :
    (used : List ℕ) (left i : ℕ) (r : Option (Option ℕ))
    → bit_at used i ≡ true
    → ScanResult used left (i + 1) r
    → ScanResult used (suc left) i r
ScanResult-suc used left i none e h = h
ScanResult-suc used left i (some none) e h = λ j lo hi. ground (arith, h j)
ScanResult-suc used left i (some (some f)) e h = (omega arith, omega arith, h.2)

scan-ScanResult :
    (used : List ℕ) (left i : ℕ)
    → i + left ≤ 8 * length used
    → ScanResult used left i (scan used left i)
unfolding scan
scan-ScanResult used zero i h = λ j lo hi. absurd (omega arith)
scan-ScanResult used (suc left) i h =
    rw (test_bit_lem used i (omega arith)) (elim (Bool-cases (bit_at used i)) [
      | inl full ↦ rw full (
          ScanResult-suc used left i (scan used left (i + 1)) full
            (scan-ScanResult used left (i + 1) (omega arith)))
      | inr free ↦ rw free (omega arith, omega arith, free)
    ])

-- Every page of the span is in use.
abbrev pub IsFull : Pmm → Type 0
IsFull p = (j : ℕ) → j < p.total_span_pages → bit_at p.used j ≡ true

-- `q` is `p` with page `i` handed out: it was free, lies in the span, is not page 0 and not
-- reserved; its bit alone is raised, its bytes alone are cleared, and one page less is free.
pub record Allocated (p q : Pmm) (i : ℕ) : Type 0 where
  pub was_free : bit_at p.used i ≡ false
  pub in_span : i < p.total_span_pages
  pub not_zero : 0 < i
  pub not_reserved : bit_at p.reserved i ≡ false
  pub raised : Raised p.used q.used i
  pub same_reserved : q.reserved ≡ p.reserved
  pub same_span : q.total_span_pages ≡ p.total_span_pages
  pub one_less : q.free_pages + 1 ≡ p.free_pages
  pub cleared : (a : ℕ) → i * page_size ≤ a → a < i * page_size + page_size → q.memory a ≡ 0
  pub kept :
      (a : ℕ) → (a < i * page_size) ⊎ (i * page_size + page_size ≤ a) → q.memory a ≡ p.memory a
  pub valid : IsValid q

zero_page_inside :
    (addr a : ℕ) (memory : ℕ → ℕ) → addr ≤ a → a < addr + page_size → zero_page addr memory a ≡ 0
zero_page_inside addr a memory lo hi = ground arith

zero_page_outside :
    (addr a : ℕ) (memory : ℕ → ℕ)
    → (a < addr) ⊎ (addr + page_size ≤ a)
    → zero_page addr memory a ≡ memory a
zero_page_outside addr a memory out = ground arith

free-not-reserved :
    (p : Pmm) (i : ℕ) → IsValid p → bit_at p.used i ≡ false → bit_at p.reserved i ≡ false
free-not-reserved p i v free = ground (arith, v.reserved_used i)

free-not-zero : (p : Pmm) (i : ℕ) → IsValid p → bit_at p.used i ≡ false → 0 < i
free-not-zero p zero v free = cc (v.reserved_used 0 v.page_zero)
free-not-zero p (suc i) v free = omega arith

module _ (p : Pmm) (i : ℕ) (v : IsValid p) (h : i < p.total_span_pages)
    (free : bit_at p.used i ≡ false) (used : List ℕ) (bits : Raised p.used used i) where
  one_less_free : dec p.free_pages + 1 ≡ p.free_pages
  one_less_free = omega (
    arith,
    v.free_count,
    v.span_fits,
    count_clear-pos p.used p.total_span_pages i h free,
    count_clear-le p.used p.total_span_pages,
  )

  taken-IsValid : IsBytes used → length used ≡ length p.used → IsValid (taken p i used)
  taken-IsValid bytes size = record {
    used_bytes = bytes;
    reserved_bytes = v.reserved_bytes;
    used_size = omega (arith, v.used_size);
    reserved_size = v.reserved_size;
    span_fits = v.span_fits;
    scan_in = omega arith;
    free_count = omega (
      arith,
      v.free_count,
      one_less_free,
      count_clear-Raised p.used used p.total_span_pages i bits h free,
    );
    reserved_used = λ j r. ground (arith, bits j, v.reserved_used j);
    page_zero = v.page_zero;
  }

  taken-Allocated : IsBytes used → length used ≡ length p.used → Allocated p (taken p i used) i
  taken-Allocated bytes size = record {
    was_free = free;
    in_span = h;
    not_zero = free-not-zero p i v free;
    not_reserved = free-not-reserved p i v free;
    raised = bits;
    same_reserved = refl;
    same_span = refl;
    one_less = one_less_free;
    cleared = λ a lo hi. zero_page_inside (i * page_size) a p.memory lo hi;
    kept = λ a out. zero_page_outside (i * page_size) a p.memory out;
    valid = taken-IsValid bytes size;
  }

take_page-Allocated :
    (p : Pmm) (i : ℕ)
    → IsValid p
    → i < p.total_span_pages
    → bit_at p.used i ≡ false
    → (q : Pmm) × (take_page p i ≡ some (q, i * page_size)) × Allocated p q i
unfolding take_page
take_page-Allocated p i v h free =
    let (used, e, bytes, size, bits) =
      set_bit_lem p.used i v.used_bytes (omega (arith, v.used_size)) in
    (taken p i used, rw e, taken-Allocated p i v h free used bits bytes size)

-- The result `r` of an allocation from `p`: a page, or address 0 when the span is full.
abbrev pub Outcome : Pmm → Option (Pmm × ℕ) → Type 0
Outcome p r =
    ((q : Pmm) × (i : ℕ) × (r ≡ some (q, i * page_size)) × Allocated p q i)
    ⊎ ((q : Pmm) × (r ≡ some (q, 0)) × IsFull p × IsValid q)

taken-Outcome :
    (p : Pmm) (i : ℕ)
    → IsValid p
    → i < p.total_span_pages
    → bit_at p.used i ≡ false
    → Outcome p (take_page p i)
taken-Outcome p i v h free = let (q, e, a) = take_page-Allocated p i v h free in inl (q, i, e, a)

abbrev span_scan : Pmm → Option (Option ℕ)
span_scan p = scan p.used (p.total_span_pages - p.last_scanned_page) p.last_scanned_page

-- The two ends of the loop.
abbrev Scanned : Pmm → Option (Option ℕ) → Type 0
Scanned p r =
    ((i : ℕ) × (r ≡ some (some i)) × (i < p.total_span_pages) × (bit_at p.used i ≡ false))
    ⊎ ((r ≡ some none)
        × ((j : ℕ) → p.last_scanned_page ≤ j → j < p.total_span_pages → bit_at p.used j ≡ true))

span_scan-cases :
    (p : Pmm) (r : Option (Option ℕ))
    → IsValid p
    → ScanResult p.used (p.total_span_pages - p.last_scanned_page) p.last_scanned_page r
    → Scanned p r
span_scan-cases p none v h = absurd h
span_scan-cases p (some none) v h = inr (refl, λ j lo hi. h j lo (omega (arith, v.scan_in)))
span_scan-cases p (some (some f)) v h = inl (f, refl, omega (arith, h.1, v.scan_in), h.2)

span_scan-Scanned : (p : Pmm) → IsValid p → Scanned p (span_scan p)
span_scan-Scanned p v = span_scan-cases p (span_scan p) v (
    scan-ScanResult p.used (p.total_span_pages - p.last_scanned_page) p.last_scanned_page
      (omega (arith, v.scan_in, v.used_size)))

at_zero : (n : ℕ) → n ≡ 0 → ltb 0 n ≡ false
at_zero n h = ground arith

past_zero : (n : ℕ) → n ≢ 0 → ltb 0 n ≡ true
past_zero n h = ground arith

round_zero :
    (fuel : ℕ) (p : Pmm)
    → IsValid p
    → p.last_scanned_page ≡ 0
    → Outcome p (alloc_rounds (suc fuel) p)
unfolding alloc_rounds
round_zero fuel p v z = elim (span_scan-Scanned p v) [
  | inl (i, e, h, free) ↦ rw e (taken-Outcome p i v h free)
  | inr (e, full) ↦
      rw e
        (rw (at_zero p.last_scanned_page z) (inr (p, refl, (λ j hi. full j (omega arith) hi), v)))
]

zero-or-not : (n : ℕ) → (n ≡ 0) ⊎ (n ≢ 0)
zero-or-not zero = inl refl
zero-or-not (suc n) = inr (λ e. omega (arith, e))

rewound-IsValid : (p : Pmm) → IsValid p → IsValid (record p { last_scanned_page = 0 })
rewound-IsValid p v = record {
  used_bytes = v.used_bytes;
  reserved_bytes = v.reserved_bytes;
  used_size = v.used_size;
  reserved_size = v.reserved_size;
  span_fits = v.span_fits;
  scan_in = omega arith;
  free_count = v.free_count;
  reserved_used = v.reserved_used;
  page_zero = v.page_zero;
}

-- What a rewound allocator does is what the allocator would have done.
rewound-Outcome :
    (p : Pmm) (r : Option (Pmm × ℕ)) → Outcome (record p { last_scanned_page = 0 }) r → Outcome p r
rewound-Outcome p r (inl (q, i, e, a)) = inl (
  q,
  i,
  e,
  record {
    was_free = a.was_free;
    in_span = a.in_span;
    not_zero = a.not_zero;
    not_reserved = a.not_reserved;
    raised = a.raised;
    same_reserved = a.same_reserved;
    same_span = a.same_span;
    one_less = a.one_less;
    cleared = a.cleared;
    kept = a.kept;
    valid = a.valid;
  },
)
rewound-Outcome p r (inr (q, e, full, v)) = inr (q, e, full, v)

-- The allocator of valid state always answers. Unless every page of the span is in use, it hands
-- out a page of the span that was free, is not page 0 and is not reserved, with its bytes cleared
-- and all other memory as it was; that page's bit alone is raised and one page less is counted
-- free. Otherwise it answers address 0. The state stays valid.
pub alloc_page_lem : (p : Pmm) → IsValid p → Outcome p (alloc_page p)
unfolding alloc_page alloc_rounds
alloc_page_lem p v = elim (span_scan-Scanned p v) [
  | inl (i, e, h, free) ↦ rw e (taken-Outcome p i v h free)
  | inr (e, full) ↦ elim (zero-or-not p.last_scanned_page) [
    | inl z ↦ round_zero 1 p v z
    | inr n ↦ rw e (
        rw (past_zero p.last_scanned_page n) (
          rewound-Outcome p (alloc_rounds 1 (record p { last_scanned_page = 0 }))
            (round_zero 0 (record p { last_scanned_page = 0 }) (rewound-IsValid p v) refl)))
  ]
]
