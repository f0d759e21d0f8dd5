-- ===== src/Bitmap/Tests.antt =====
-- The theorems on bitmaps and pages at concrete inputs.
use agentic_os.Base.{ℕ, List, [], ◌∷◌, arith}
use agentic_os.Bitmap.Laws.{IsBytes}

abbrev two_bytes : List ℕ
two_bytes = 1 ∷ 128 ∷ []

two_bytes-IsBytes : IsBytes two_bytes
two_bytes-IsBytes = (omega arith, (omega arith, tt))
