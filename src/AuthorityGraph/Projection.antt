-- ===== src/AuthorityGraph/Projection.antt =====
-- The projections of kernel_common/src/authority_graph.rs against `is_reachable`.
use agentic_os.Base.{
  ℕ, zero, suc, ◌+◌, ◌-◌, ◌*◌, ◌^◌, ◌≤◌, ◌<◌, ◌≡◌, refl, sym, ap, subst, List, [], ◌∷◌, ◌++◌, Bool,
  true, false, not, ◌&&◌, ◌||◌, none, some, inl, inr, arith, Bool-cases, if◌then◌else◌, ltb, leb,
  min, u64, length, length-append,
}
use agentic_os.AuthorityGraph.{
  cpu_process, pci_device, Graph, Grant, Principal, Entry, page_size, pages_for, revoke, is_revoked,
  is_reachable, reaches, project, project_pages, project_page_table, project_iommu_table,
  same_principal,
}
use agentic_os.AuthorityGraph.Reach.{any_live, is_reachable-revoke}

-- Whether the page of an entry holds the address.
unfoldable pub covered : List Entry → ℕ → Bool
covered [] a = false
covered (e ∷ entries) a =
    (leb e.phys_page a && ltb a (e.phys_page + page_size)) || covered entries a

-- The range of every live grant ends a page below 2 ^ 64.
abbrev pub AllFit : Graph → Type 0
AllFit [] = Unit
AllFit (none ∷ slots) = AllFit slots
AllFit (some g ∷ slots) = (g.phys_base + g.len + page_size ≤ 2 ^ 64) × AllFit slots

covered-append :
    (xs ys : List Entry) (a : ℕ) → covered (xs ++ ys) a ≡ (covered xs a || covered ys a)
unfolding covered
covered-append [] ys a = refl
covered-append (e ∷ xs) ys a = ground (arith, covered-append xs ys a)

length-project_pages :
    (g : Grant) (p left room : ℕ) → length (project_pages g p left room) ≡ min left room
unfolding project_pages
length-project_pages g p zero room = omega arith
length-project_pages g p (suc left) zero = omega arith
length-project_pages g p (suc left) (suc room) =
    omega (arith, length-project_pages g (p + 1) left room)

covered-project_pages :
    (g : Grant) (p left room a : ℕ)
    → g.phys_base + (p + left) * page_size ≤ 2 ^ 64
    → covered (project_pages g p left room) a ≡ (
        leb (g.phys_base + p * page_size) a
        && ltb a (g.phys_base + (p + min left room) * page_size))
unfolding covered project_pages
covered-project_pages g p zero room a h = ground arith
covered-project_pages g p (suc left) zero a h = ground arith
covered-project_pages g p (suc left) (suc room) a h =
    ground (arith, covered-project_pages g (p + 1) left room a (omega arith))

-- The address lies in the pages of the grant.
abbrev in_range : Grant → ℕ → Bool
in_range g a = leb g.phys_base a && ltb a (u64 (g.phys_base + u64 (pages_for g.len * page_size)))

-- `entries` project `ranges` into at most `room` entries: they cover nothing else, and they cover
-- all of it unless they fill the room.
abbrev Covers : List Entry → ℕ → Bool → ℕ → Type 0
Covers entries room range a =
    (length entries ≤ room)
    × (covered entries a ≡ true → range ≡ true)
    × (length entries < room → range ≡ true → covered entries a ≡ true)

project_pages-Covers :
    (g : Grant) (room a : ℕ)
    → g.phys_base + g.len + page_size ≤ 2 ^ 64
    → Covers (project_pages g 0 (pages_for g.len) room) room (in_range g a) a
project_pages-Covers g room a fits =
    let size = length-project_pages g 0 (pages_for g.len) room in
    let cover = covered-project_pages g 0 (pages_for g.len) room a (omega arith) in
    (omega (arith, size), λ h. ground (arith, cover), λ short h. ground (arith, cover, size))

Covers-append :
    (xs ys : List Entry) (room a : ℕ) (x y : Bool)
    → Covers xs room x a
    → Covers ys (room - length xs) y a
    → Covers (xs ++ ys) room (x || y) a
Covers-append xs ys room a x y (sx, fx, cx) (sy, fy, cy) =
    let size = length-append xs ys in
    let cover = covered-append xs ys a in
    (omega (arith, size), λ h. ground (arith, cover), λ short h. ground (arith, cover, size))

or_if : (x y : Bool) → (x || y) ≡ (if x then true else y)
or_if x y = ground arith

project-Covers :
    (graph : Graph) (principal : Principal) (room a : ℕ)
    → AllFit graph
    → Covers (project graph principal room) room (is_reachable graph principal a) a
unfolding project is_reachable covered
project-Covers [] principal room a fit = (omega arith, λ h. h, λ short h. h)
project-Covers (none ∷ slots) principal room a fit = project-Covers slots principal room a fit
project-Covers (some g ∷ slots) principal room a fit =
    elim (Bool-cases (same_principal g.principal principal)) [
      | inl e ↦ rw e (
          subst
            (λ r.
              Covers
                (project_pages g 0 (pages_for g.len) room
                  ++ project slots principal
                      (room - length (project_pages g 0 (pages_for g.len) room)))
                room r a)
            (or_if (in_range g a) (is_reachable slots principal a))
            (Covers-append (project_pages g 0 (pages_for g.len) room)
              (project slots principal (room - length (project_pages g 0 (pages_for g.len) room)))
              room a (in_range g a) (is_reachable slots principal a)
              (project_pages-Covers g room a (fit.0)) (project-Covers slots principal _ a (fit.1))))
      | inr e ↦ rw e (project-Covers slots principal room a (fit.1))
    ]

append_nil {ℓ} : {A : Type ℓ} (xs : List A) → xs ++ [] ≡ xs
append_nil [] = refl
append_nil (x ∷ xs) = ap (λ ys. x ∷ ys) (append_nil xs)

-- One of the two tables is empty, and the other is the projection.
tables-project :
    (graph : Graph) (principal : Principal) (room : ℕ)
    → project_page_table graph principal room ++ project_iommu_table graph principal room
      ≡ project graph principal room
unfolding project_page_table project_iommu_table
tables-project graph (cpu_process id) room = append_nil (project graph (cpu_process id) room)
tables-project graph (pci_device b d f) room = refl

-- If the range of every live grant ends a page below 2 ^ 64: the page table and the IOMMU table
-- of a principal have together at most `room` entries; they cover no address that is not
-- reachable; and when they do not fill the room, they cover every reachable address.
pub tables-is_reachable :
    (graph : Graph) (principal : Principal) (room a : ℕ)
    → AllFit graph
    → let tables =
        project_page_table graph principal room ++ project_iommu_table graph principal room in
      (length tables ≤ room)
      × (covered tables a ≡ true → is_reachable graph principal a ≡ true)
      × (length tables < room → is_reachable graph principal a ≡ true → covered tables a ≡ true)
tables-is_reachable graph principal room a fit =
    subst (λ t. Covers t room (is_reachable graph principal a) a)
      (sym (tables-project graph principal room)) (project-Covers graph principal room a fit)

AllFit-revoke :
    (graph : Graph) (principal : Principal) (base : ℕ)
    → AllFit graph
    → AllFit ((revoke graph principal base).0)
unfolding revoke
AllFit-revoke [] principal base fit = fit
AllFit-revoke (none ∷ slots) principal base fit = AllFit-revoke slots principal base fit
AllFit-revoke (some g ∷ slots) principal base fit =
    elim (Bool-cases (is_revoked principal base g)) [
      | inl e ↦ rw e (AllFit-revoke slots principal base (fit.1))
      | inr e ↦ rw e (fit.0, AllFit-revoke slots principal base (fit.1))
    ]

-- If the range of every live grant ends a page below 2 ^ 64, and every live grant that lets the
-- principal reach the address is among those that the revocation names, then after the revocation
-- neither the page table nor the IOMMU table of that principal covers the address, whatever room
-- they are given.
pub revoke-tables :
    (graph : Graph) (principal : Principal) (base room a : ℕ)
    → AllFit graph
    → any_live (λ g. reaches principal a g && not (is_revoked principal base g)) graph ≡ false
    → let after = (revoke graph principal base).0 in
      covered
        (project_page_table after principal room ++ project_iommu_table after principal room)
        a
      ≡ false
revoke-tables graph principal base room a fit only = not_true _ (λ c. ground (
  arith,
  is_reachable-revoke graph principal base principal a,
  (tables-is_reachable ((revoke graph principal base).0) principal room a
        (AllFit-revoke graph principal base fit)).1
      c,
))
  where
    not_true : (x : Bool) → (x ≡ true → ⊥) → x ≡ false
    not_true true h = absurd (h refl)
    not_true false h = refl
