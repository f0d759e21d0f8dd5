-- ===== src/Geometry/Visible.antt =====
-- The pixels that kernel_common/src/geometry.rs leaves of a rectangle behind others.
use agentic_os.Base.{
  ℕ, suc, zero, ◌-◌, ◌≡◌, ◌≤◌, ◌<◌, ◌⊎◌, refl, sym, ◌∙◌, ap, ap₂, inl, inr, min, max, List, [], ◌∷◌,
  Bool, true, false, not, ◌&&◌, ◌||◌, none, some, ltb, leb, Bool-cases, if◌then◌else◌, take, arith,
}
use agentic_os.Geometry.{
  Rect, is_empty, saturating_add, right, bottom, intersect, contains_rect, subtract_at, subtract,
  subtract_all, visible_from, compute_visible_rects, visible_capacity,
}
use agentic_os.Geometry.Subtract.{
  within, covers, bit, layers, layers-append, saturating_lem, spread, Inside, slices_lem,
}

meets : (a a1 b b1 p : ℕ) → within (max a b) (min a1 b1) p ≡ (within a a1 p && within b b1 p)
meets a a1 b b1 p = ground arith

exchange : (A B C D : Bool) → ((A && B) && (C && D)) ≡ ((A && C) && (B && D))
exchange A B C D = ground arith

empty_meet :
    (x x1 y y1 p q : ℕ) → (ltb x x1 && ltb y y1) ≡ false → (within x x1 p && within y y1 q) ≡ false
empty_meet x x1 y y1 p q h = ground arith

module _ (a b : Rect) (px py : ℕ) where
  both :
      (within (max a.x b.x) (min (right a) (right b)) px
        && within (max a.y b.y) (min (bottom a) (bottom b)) py)
      ≡ (covers a px py && covers b px py)
  both =
      ap₂ ◌&&◌ (meets a.x (right a) b.x (right b) px) (meets a.y (bottom a) b.y (bottom b) py)
      ∙ exchange (within a.x (right a) px) (within b.x (right b) px) (within a.y (bottom a) py)
          (within b.y (bottom b) py)

  intersect_lem :
      ((intersect a b ≡ none) × ((covers a px py && covers b px py) ≡ false))
      ⊎ ((r : Rect) × (intersect a b ≡ some r)
          × Inside a r px py
          × (covers r px py ≡ (covers a px py && covers b px py)))
  unfolding intersect
  intersect_lem =
      elim (Bool-cases (
        ltb (max a.x b.x) (min (right a) (right b))
        && ltb (max a.y b.y) (min (bottom a) (bottom b)))) [
          | inr apart ↦ inl (
            rw apart refl,
            sym both
                ∙ empty_meet (max a.x b.x) (min (right a) (right b)) (max a.y b.y)
                    (min (bottom a) (bottom b)) px py apart,
          )
          | inl meet ↦
              let x0 = max a.x b.x in
              let y0 = max a.y b.y in
              let x1 = min (right a) (right b) in
              let y1 = min (bottom a) (bottom b) in
              let r : Rect = record { x = x0; y = y0; width = x1 - x0; height = y1 - y0 } in
              let px0 : x0 < x1 = first x0 x1 y0 y1 meet in
              let py0 : y0 < y1 = second x0 x1 y0 y1 meet in
              let ex : right r ≡ x1 = ends_x px0 in
              let ey : bottom r ≡ y1 = ends_y py0 in
              inr (
                r,
                rw meet refl,
                (
                  omega arith,
                  omega (arith, ex),
                  omega (arith, ex),
                  omega arith,
                  omega (arith, ey),
                  omega (arith, ey),
                ),
                ap₂ ◌&&◌ (ap (λ e. within x0 e px) ex) (ap (λ e. within y0 e py) ey) ∙ both,
              )
        ]
    where
      first : (x x1 y y1 : ℕ) → (ltb x x1 && ltb y y1) ≡ true → x < x1
      first x x1 y y1 h = ground arith

      second : (x x1 y y1 : ℕ) → (ltb x x1 && ltb y y1) ≡ true → y < y1
      second x x1 y y1 h = ground arith

      ends_x :
          max a.x b.x < min (right a) (right b)
          → saturating_add (max a.x b.x) (min (right a) (right b) - max a.x b.x)
            ≡ min (right a) (right b)
      ends_x h =
          let (fx, gx) = spread a.x a.width (omega arith) in
          saturating_lem (max a.x b.x) (min (right a) (right b)) (omega arith) (omega arith)
            (omega arith)

      ends_y :
          max a.y b.y < min (bottom a) (bottom b)
          → saturating_add (max a.y b.y) (min (bottom a) (bottom b) - max a.y b.y)
            ≡ min (bottom a) (bottom b)
      ends_y h =
          let (fy, gy) = spread a.y a.height (omega arith) in
          saturating_lem (max a.y b.y) (min (bottom a) (bottom b)) (omega arith) (omega arith)
            (omega arith)

empty_covers : (a : Rect) (px py : ℕ) → is_empty a ≡ true → covers a px py ≡ false
unfolding is_empty right bottom saturating_add
empty_covers a px py h = ground arith

contained :
    (a a1 b b1 x x1 y y1 p q : ℕ)
    → (leb x a && leb y b && leb a1 x1 && leb b1 y1) ≡ true
    → (within a a1 p && within b b1 q && not (within x x1 p && within y y1 q)) ≡ false
contained a a1 b b1 x x1 y y1 p q h = ground arith

without : (A B R : Bool) → R ≡ (A && B) → (A && not R) ≡ (A && not B)
without A B R h = ground arith

alone : (A B : Bool) → (A && B) ≡ false → A ≡ (A && not B)
alone A B h = ground arith

-- The rectangles that `subtract` writes cover exactly the pixels of the rectangle that are not the
-- occluder's, each of them once: they neither overlap nor lie outside. This holds for any two
-- rectangles, empty ones and ones whose width is negative as an i32 included.
pub subtract_lem :
    (a b : Rect) (px py : ℕ)
    → layers (subtract a b) px py ≡ bit (covers a px py && not (covers b px py))
unfolding subtract subtract_at contains_rect
subtract_lem a b px py = elim (Bool-cases (is_empty a)) [
  | inl empty ↦
      rw empty (sym (ap bit (ap (λ c. c && not (covers b px py)) (empty_covers a px py empty))))
  | inr full ↦ elim (intersect_lem a b px py) [
    | inl (e, apart) ↦
        rw full (rw e (omega (arith, ap bit (alone (covers a px py) (covers b px py) apart))))
    | inr (r, e, inside, same) ↦
        elim (Bool-cases
          (leb b.x a.x && leb b.y a.y && leb (right a) (right b) && leb (bottom a) (bottom b))) [
            | inl all ↦ rw full (
                rw e (
                  rw full (
                    rw all (
                      sym (
                        ap bit (
                          contained a.x (right a) a.y (bottom a) b.x (right b) b.y (bottom b) px py
                            all))))))
            | inr part ↦ rw full (
                rw e (
                  rw full (
                    rw part (
                      slices_lem a r px py inside
                      ∙ ap bit (without (covers a px py) (covers b px py) (covers r px py) same)))))
          ]
  ]
]

layers-take : (n : ℕ) (rs : List Rect) (px py : ℕ) → layers (take n rs) px py ≤ layers rs px py
layers-take zero rs px py = omega arith
layers-take (suc n) [] px py = omega arith
layers-take (suc n) (r ∷ rs) px py = omega (arith, layers-take n rs px py)

-- Whether some occluder has the pixel.
abbrev pub occluded : List Rect → ℕ → ℕ → Bool
occluded [] px py = false
occluded (o ∷ os) px py = covers o px py || occluded os px py

layers-subtract_all :
    (rs : List Rect) (o : Rect) (px py : ℕ)
    → layers (subtract_all rs o) px py ≡ (if covers o px py then 0 else layers rs px py)
unfolding subtract_all
layers-subtract_all [] o px py = ground arith
layers-subtract_all (r ∷ rs) o px py = ground (
  arith,
  layers-append (subtract r o) (subtract_all rs o) px py,
  subtract_lem r o px py,
  layers-subtract_all rs o px py,
)

one_more :
    (c d : Bool) (before after cut last : ℕ)
    → after ≡ (if c then 0 else before)
    → cut ≤ after
    → last ≤ (if d then 0 else cut)
    → last ≤ (if c || d then 0 else before)
one_more true true before after cut last e h g = omega arith
one_more true false before after cut last e h g = omega arith
one_more false true before after cut last e h g = omega arith
one_more false false before after cut last e h g = omega arith

layers-visible_from :
    (os rs : List Rect) (px py : ℕ)
    → layers (visible_from rs os) px py ≤ (if occluded os px py then 0 else layers rs px py)
unfolding visible_from
layers-visible_from [] rs px py = omega arith
layers-visible_from (o ∷ os) [] px py = elim (Bool-cases (is_empty o)) [
  | inl empty ↦ rw empty (ground (arith, layers-visible_from os [] px py))
  | inr solid ↦ rw solid (ground arith)
]
layers-visible_from (o ∷ os) (r ∷ rs) px py = elim (Bool-cases (is_empty o)) [
  | inl empty ↦
      rw empty (ground (arith, layers-visible_from os (r ∷ rs) px py, empty_covers o px py empty))
  | inr solid ↦
      let left = subtract_all (r ∷ rs) o in
      rw solid (
        one_more (covers o px py) (occluded os px py) (layers (r ∷ rs) px py) (layers left px py)
          (layers (take visible_capacity left) px py) _ (layers-subtract_all (r ∷ rs) o px py)
          (layers-take visible_capacity left px py)
          (layers-visible_from os (take visible_capacity left) px py))
]

-- The visible rectangles of a window never overlap, never leave the window and never show a pixel of an
-- occluder, however many occluders there are and also when the list of rectangles is cut at 32: a
-- pixel belongs to at most one of them, and to none unless it is the window's and no occluder's.
pub compute_visible_rects_lem :
    (target : Rect) (occluders : List Rect) (px py : ℕ)
    → layers (compute_visible_rects target occluders) px py
      ≤ bit (covers target px py && not (occluded occluders px py))
unfolding compute_visible_rects
compute_visible_rects_lem target occluders px py = elim (Bool-cases (is_empty target)) [
  | inl empty ↦ rw empty (omega arith)
  | inr solid ↦ rw solid (ground (arith, layers-visible_from occluders (target ∷ []) px py))
]
