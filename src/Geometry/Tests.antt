-- ===== src/Geometry/Tests.antt =====
-- Runs of the definitions of kernel_common/src/geometry.rs, and examples of the theorems about them.
use agentic_os.Base.{ℕ, ◌≡◌, ◌≤◌, refl, [], ◌∷◌, not, ◌&&◌}
use agentic_os.Geometry.{Rect, subtract, compute_visible_rects}
use agentic_os.Geometry.Subtract.{covers, bit, layers}
use agentic_os.Geometry.Visible.{subtract_lem, occluded, compute_visible_rects_lem}

abbrev rect : ℕ → ℕ → ℕ → ℕ → Rect
rect x y width height = record { x = x; y = y; width = width; height = height }

-- A hole in the middle leaves the four slices.
holed :
    subtract (rect 10 10 100 100) (rect 20 30 10 10)
    ≡ rect 10 10 100 20 ∷ rect 10 40 100 70 ∷ rect 10 30 10 10 ∷ rect 30 30 80 10 ∷ []
unfolding subtract
holed = refl

subtract_example :
    layers (subtract (rect 10 10 100 100) (rect 20 30 10 10)) 25 35
    ≡ bit (covers (rect 10 10 100 100) 25 35 && not (covers (rect 20 30 10 10) 25 35))
subtract_example = subtract_lem (rect 10 10 100 100) (rect 20 30 10 10) 25 35

compute_visible_rects_example :
    layers
      (compute_visible_rects (rect 10 10 100 100) (rect 20 30 10 10 ∷ rect 0 0 15 500 ∷ []))
      50
      50
    ≤ bit (
        covers (rect 10 10 100 100) 50 50
        && not (occluded (rect 20 30 10 10 ∷ rect 0 0 15 500 ∷ []) 50 50))
compute_visible_rects_example =
    compute_visible_rects_lem (rect 10 10 100 100) (rect 20 30 10 10 ∷ rect 0 0 15 500 ∷ []) 50 50
