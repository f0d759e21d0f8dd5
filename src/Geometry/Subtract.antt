-- ===== src/Geometry/Subtract.antt =====
-- `subtract` of kernel_common/src/geometry.rs by its points.
use agentic_os.Base.{
  ℕ, ◌+◌, ◌-◌, ◌^◌, ◌≡◌, ◌≤◌, ◌<◌, refl, sym, ◌∙◌, ap, ap₂, List, [], ◌∷◌, ◌++◌, Bool, true, false,
  not, ◌&&◌, ltb, leb, if◌then◌else◌, arith,
}
use agentic_os.Geometry.{
  Rect, top_slice, bottom_slice, left_slice, right_slice, saturating_add, right, bottom, slice,
  slices,
}

-- The number lies in the half-open interval.
abbrev pub within : ℕ → ℕ → ℕ → Bool
within a b p = leb a p && ltb p b

-- The pixel belongs to the rectangle.
abbrev pub covers : Rect → ℕ → ℕ → Bool
covers r px py = within r.x (right r) px && within r.y (bottom r) py

abbrev pub bit : Bool → ℕ
bit b = if b then 1 else 0

-- How many of the rectangles the pixel belongs to.
abbrev pub layers : List Rect → ℕ → ℕ → ℕ
layers [] px py = 0
layers (r ∷ rs) px py = bit (covers r px py) + layers rs px py

pub layers-append :
    (rs ss : List Rect) (px py : ℕ) → layers (rs ++ ss) px py ≡ layers rs px py + layers ss px py
layers-append [] ss px py = omega arith
layers-append (r ∷ rs) ss px py = omega (arith, layers-append rs ss px py)

layers_four :
    (t b l r : List Rect) (px py : ℕ)
    → layers (t ++ b ++ l ++ r) px py
      ≡ layers t px py + (layers b px py + (layers l px py + layers r px py))
layers_four t b l r px py = omega (
  arith,
  layers-append ((t ++ b) ++ l) r px py,
  layers-append (t ++ b) l px py,
  layers-append t b px py,
  layers-append t (b ++ l ++ r) px py,
  layers-append b (l ++ r) px py,
  layers-append l r px py,
)

-- An interval in three parts.
thirds :
    (x x1 a a1 p : ℕ)
    → x ≤ a
    → a ≤ a1
    → a1 ≤ x1
    → bit (within x x1 p) ≡ bit (within x a p) + (bit (within a a1 p) + bit (within a1 x1 p))
thirds x x1 a a1 p h1 h2 h3 = ground arith

-- A frame around the middle of both directions.
frame :
    (X L M R Y T C B : Bool)
    → bit X ≡ bit L + (bit M + bit R)
    → bit Y ≡ bit T + (bit C + bit B)
    → bit (X && T) + (bit (X && B) + (bit (L && C) + bit (R && C))) ≡ bit (X && Y && not (M && C))
frame X L M R Y T C B h g = ground arith

-- A slice counts as its band: the band is empty when the test fails.
slice_lem :
    (t : Bool) (r : Rect) (band : Bool) (px py : ℕ)
    → (t ≡ true → covers r px py ≡ band)
    → (t ≡ false → band ≡ false)
    → layers (slice t r) px py ≡ bit band
slice_lem true r band px py h g =
    let same : bit (covers r px py) ≡ bit band = ap bit (h refl) in omega arith
slice_lem false r band px py h g = sym (ap bit (g refl))

-- An end that is not cut off.
pub saturating_lem : (x e : ℕ) → x ≤ e → e < x + 2 ^ 31 → e < 2 ^ 32 → saturating_add x (e - x) ≡ e
unfolding saturating_add
saturating_lem x e h g f = ground arith

-- A rectangle that has points is narrower than 2 ^ 31, and ends before 2 ^ 32.
pub spread :
    (x w : ℕ)
    → x < saturating_add x w
    → (saturating_add x w < 2 ^ 32) × (saturating_add x w < x + 2 ^ 31)
unfolding saturating_add
spread x w h = ground arith

empty_band : (a b p : ℕ) (other : Bool) → ltb a b ≡ false → (other && within a b p) ≡ false
empty_band a b p other h = ground arith

empty_band_left : (a b p : ℕ) (other : Bool) → ltb a b ≡ false → (within a b p && other) ≡ false
empty_band_left a b p other h = ground arith

module _ (a inter : Rect) (px py : ℕ) where
  -- The intersection lies in the rectangle and has points.
  abbrev pub Inside : Type 0
  Inside =
      (a.x ≤ inter.x)
      × (inter.x < right inter)
      × (right inter ≤ right a)
      × (a.y ≤ inter.y)
      × (inter.y < bottom inter)
      × (bottom inter ≤ bottom a)

  pub slices_lem :
      Inside → layers (slices a inter) px py ≡ bit (covers a px py && not (covers inter px py))
  unfolding slices right bottom bottom_slice right_slice
  slices_lem (h1, h2, h3, h4, h5, h6) =
      let (fx, wx) = spread a.x a.width (omega arith) in
      let (fy, wy) = spread a.y a.height (omega arith) in
      let X = within a.x (right a) px in
      let C = within inter.y (bottom inter) py in
      let top =
        slice_lem (ltb a.y inter.y) (top_slice a inter) (X && within a.y inter.y py) px py
          (λ t.
            ap (λ e. X && within a.y e py)
              (saturating_lem a.y inter.y h4 (omega arith) (omega arith)))
          (empty_band a.y inter.y py X) in
      let low =
        slice_lem (ltb (bottom inter) (bottom a)) (bottom_slice a inter)
          (X && within (bottom inter) (bottom a) py) px py
          (λ t.
            ap (λ e. X && within (bottom inter) e py)
              (saturating_lem (bottom inter) (bottom a) h6 (omega arith) fy))
          (empty_band (bottom inter) (bottom a) py X) in
      let left =
        slice_lem (ltb a.x inter.x) (left_slice a inter) (within a.x inter.x px && C) px py
          (λ t.
            ap (λ e. within a.x e px && C)
              (saturating_lem a.x inter.x h1 (omega arith) (omega arith)))
          (empty_band_left a.x inter.x px C) in
      let far =
        slice_lem (ltb (right inter) (right a)) (right_slice a inter)
          (within (right inter) (right a) px && C) px py
          (λ t.
            ap (λ e. within (right inter) e px && C)
              (saturating_lem (right inter) (right a) h3 (omega arith) fx))
          (empty_band_left (right inter) (right a) px C) in
      let whole =
        frame X (within a.x inter.x px) (within inter.x (right inter) px)
          (within (right inter) (right a) px) (within a.y (bottom a) py) (within a.y inter.y py) C
          (within (bottom inter) (bottom a) py)
          (thirds a.x (right a) inter.x (right inter) px h1 (omega arith) h3)
          (thirds a.y (bottom a) inter.y (bottom inter) py h4 (omega arith) h6) in
      let t = slice (ltb a.y inter.y) (top_slice a inter) in
      let b = slice (ltb (bottom inter) (bottom a)) (bottom_slice a inter) in
      let l = slice (ltb a.x inter.x) (left_slice a inter) in
      let r = slice (ltb (right inter) (right a)) (right_slice a inter) in
      layers_four t b l r px py ∙ ap₂ ◌+◌ top (ap₂ ◌+◌ low (ap₂ ◌+◌ left far)) ∙ whole
