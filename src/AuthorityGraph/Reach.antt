-- ===== src/AuthorityGraph/Reach.antt =====
-- What `grant` and `revoke` of kernel_common/src/authority_graph.rs do to reachability.
use agentic_os.Base.{
  ℕ, ◌≡◌, refl, ap, ◌∙◌, [], ◌∷◌, Bool, true, false, not, ◌&&◌, ◌||◌, none, some, inl, inr, arith,
  Bool-cases, if◌then◌else◌,
}
use agentic_os.AuthorityGraph.{
  Graph, Grant, Principal, grant, revoke, is_revoked, is_reachable, reaches,
}

-- Whether a live grant satisfies the test.
unfoldable pub any_live : (Grant → Bool) → Graph → Bool
any_live q [] = false
any_live q (none ∷ slots) = any_live q slots
any_live q (some g ∷ slots) = q g || any_live q slots

pub is_reachable-any_live :
    (graph : Graph) (principal : Principal) (a : ℕ)
    → is_reachable graph principal a ≡ any_live (reaches principal a) graph
unfolding is_reachable any_live
is_reachable-any_live [] principal a = refl
is_reachable-any_live (none ∷ slots) principal a = is_reachable-any_live slots principal a
is_reachable-any_live (some g ∷ slots) principal a =
    or_if (reaches principal a g) (is_reachable slots principal a)
      (any_live (reaches principal a) slots) (is_reachable-any_live slots principal a)
  where
    or_if : (x y z : Bool) → y ≡ z → (if x then true else y) ≡ (x || z)
    or_if x y z e = ground arith

any_live-revoke :
    (graph : Graph) (principal : Principal) (base : ℕ) (q : Grant → Bool)
    → any_live q ((revoke graph principal base).0)
      ≡ any_live (λ g. q g && not (is_revoked principal base g)) graph
unfolding revoke any_live
any_live-revoke [] principal base q = refl
any_live-revoke (none ∷ slots) principal base q = any_live-revoke slots principal base q
any_live-revoke (some g ∷ slots) principal base q =
    elim (Bool-cases (is_revoked principal base g)) [
      | inl e ↦ rw e (any_live-revoke slots principal base q ∙ dropped (q g) _)
      | inr e ↦ rw e (ap (λ x. q g || x) (any_live-revoke slots principal base q) ∙ kept (q g) _)
    ]
  where
    dropped : (x y : Bool) → y ≡ ((x && false) || y)
    dropped x y = ground arith

    kept : (x y : Bool) → (x || y) ≡ ((x && true) || y)
    kept x y = ground arith

-- After a revocation, an address is reachable for a principal exactly when a live grant that is
-- not among those revoked reaches it; this holds for every principal and every address.
pub is_reachable-revoke :
    (graph : Graph) (principal : Principal) (base : ℕ) (other : Principal) (a : ℕ)
    → is_reachable ((revoke graph principal base).0) other a
      ≡ any_live (λ g. reaches other a g && not (is_revoked principal base g)) graph
is_reachable-revoke graph principal base other a =
    is_reachable-any_live ((revoke graph principal base).0) other a
    ∙ any_live-revoke graph principal base (reaches other a)

-- A grant that is added makes reachable what it reaches and changes nothing else; a grant that is
-- refused leaves the graph as it was.
pub is_reachable-grant :
    (graph : Graph) (g : Grant) (principal : Principal) (a : ℕ)
    → let (after, added) = grant graph g in
      (is_reachable after principal a ≡ (
        if added
        then reaches principal a g || is_reachable graph principal a
        else is_reachable graph principal a))
      × (added ≡ false → after ≡ graph)
unfolding is_reachable grant
is_reachable-grant [] g principal a = (refl, λ h. refl)
is_reachable-grant (none ∷ slots) g principal a = (or_if (reaches principal a g) _, λ h. cc)
  where
    or_if : (x y : Bool) → (if x then true else y) ≡ (x || y)
    or_if x y = ground arith
is_reachable-grant (some old ∷ slots) g principal a =
    let (same, refused) = is_reachable-grant slots g principal a in
    let (after, added) = grant slots g in
    (
      later (reaches principal a old) (reaches principal a g) added (is_reachable slots principal a)
          (is_reachable after principal a) same,
      λ h. ap (λ s. some old ∷ s) (refused h),
    )
  where
    later :
        (x y added r after : Bool)
        → after ≡ (if added then y || r else r)
        → (if x then true else after)
          ≡ (if added then y || (if x then true else r) else (if x then true else r))
    later x y added r after e = ground arith
