-- ===== src/Geometry.antt =====
-- Rectangles of kernel_common/src/geometry.rs. An i32 is its value plus 2 ^ 31, which keeps the order,
-- the minimum, the maximum and the differences; the arithmetic saturates at 0 and 2 ^ 32 - 1.
pub mod Subtract
pub mod Visible
mod Tests
use agentic_os.Base.{
  ℕ, suc, ◌+◌, ◌-◌, ◌*◌, ◌%◌, ◌^◌, min, max, List, [], ◌∷◌, ◌++◌, Bool, true, false, ◌&&◌, ◌||◌,
  Option, none, some, ltb, leb, ◌==◌, if◌then◌else◌, u64, take,
}

pub record Rect : Type 0 where
  pub x : ℕ
  pub y : ℕ
  pub width : ℕ
  pub height : ℕ

-- `Rect::empty`; 2 ^ 31 is the coordinate 0.
abbrev pub empty_rect : Rect
empty_rect = record { x = 2 ^ 31; y = 2 ^ 31; width = 0; height = 0 }

unfoldable pub is_empty : Rect → Bool
is_empty r = r.width == 0 || r.height == 0

-- `x.saturating_add(w as i32)`: a `w` of 2 ^ 31 or more is negative as an i32.
unfoldable pub saturating_add : ℕ → ℕ → ℕ
saturating_add x w = if ltb w (2 ^ 31) then min (x + w) (2 ^ 32 - 1) else x - (2 ^ 32 - w)

unfoldable pub right : Rect → ℕ
unfolding saturating_add
right r = saturating_add r.x r.width

unfoldable pub bottom : Rect → ℕ
unfolding saturating_add
bottom r = saturating_add r.y r.height

-- `area` on a usize.
unfoldable pub area : Rect → ℕ
area r = u64 (r.width * r.height)

unfoldable pub intersect : Rect → Rect → Option Rect
unfolding right bottom
intersect a b =
    let x0 = max a.x b.x in
    let y0 = max a.y b.y in
    let x1 = min (right a) (right b) in
    let y1 = min (bottom a) (bottom b) in
    if ltb x0 x1 && ltb y0 y1
    then some (record { x = x0; y = y0; width = x1 - x0; height = y1 - y0 })
    else none

unfoldable pub contains_rect : Rect → Rect → Bool
unfolding is_empty right bottom
contains_rect a b =
    if is_empty b
    then true
    else leb a.x b.x && leb a.y b.y && leb (right b) (right a) && leb (bottom b) (bottom a)

-- One of the four slices, when its test holds.
abbrev pub slice : Bool → Rect → List Rect
slice test r = if test then r ∷ [] else []

-- The slices of `subtract` around the intersection.
abbrev pub top_slice : Rect → Rect → Rect
top_slice a inter = record { x = a.x; y = a.y; width = a.width; height = inter.y - a.y }

unfoldable pub bottom_slice : Rect → Rect → Rect
unfolding bottom
bottom_slice a inter = record {
  x = a.x;
  y = bottom inter;
  width = a.width;
  height = bottom a - bottom inter;
}

abbrev pub left_slice : Rect → Rect → Rect
left_slice a inter = record { x = a.x; y = inter.y; width = inter.x - a.x; height = inter.height }

unfoldable pub right_slice : Rect → Rect → Rect
unfolding right
right_slice a inter = record {
  x = right inter;
  y = inter.y;
  width = right a - right inter;
  height = inter.height;
}

unfoldable pub slices : Rect → Rect → List Rect
unfolding right bottom bottom_slice right_slice
slices a inter =
    slice (ltb a.y inter.y) (top_slice a inter)
    ++ slice (ltb (bottom inter) (bottom a)) (bottom_slice a inter)
    ++ slice (ltb a.x inter.x) (left_slice a inter)
    ++ slice (ltb (right inter) (right a)) (right_slice a inter)

-- The end of `subtract` at the intersection.
unfoldable pub subtract_at : Rect → Rect → Option Rect → List Rect
unfolding contains_rect slices
subtract_at a occluder none = a ∷ []
subtract_at a occluder (some inter) = if contains_rect occluder a then [] else slices a inter

-- `subtract`: the rectangles that are written to the output, which has room for the four of them.
unfoldable pub subtract : Rect → Rect → List Rect
unfolding is_empty intersect subtract_at
subtract a occluder = if is_empty a then [] else subtract_at a occluder (intersect a occluder)

-- The inner loops of `compute_visible_rects`, before the cut at 32.
unfoldable pub subtract_all : List Rect → Rect → List Rect
unfolding subtract
subtract_all [] occluder = []
subtract_all (r ∷ rs) occluder = subtract r occluder ++ subtract_all rs occluder

abbrev pub visible_capacity : ℕ
visible_capacity = 32

-- The loop over the occluders.
unfoldable pub visible_from : List Rect → List Rect → List Rect
unfolding is_empty subtract_all
visible_from current [] = current
visible_from current (occ ∷ occs) =
    let skipped = visible_from current occs in
    let next = visible_from (take visible_capacity (subtract_all current occ)) occs in
    if is_empty occ then skipped else elim current [ [] ↦ [] | r ∷ rs ↦ next ]

-- `compute_visible_rects`
unfoldable pub compute_visible_rects : Rect → List Rect → List Rect
unfolding is_empty visible_from
compute_visible_rects target occluders =
    if is_empty target then [] else visible_from (target ∷ []) occluders
