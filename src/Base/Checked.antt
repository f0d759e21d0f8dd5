-- ===== src/Base/Checked.antt =====
-- Properties of bytes, checked on every value by evaluation.
use mathlib.Core.Path.{◌≡◌}
use mathlib.Core.Bool.{Bool, true, false}
use Prim.Native.Nat.{ℕ, zero, suc, ◌<◌}
use native.Mathlib.Omega.{arith}
use agentic_os.Base.Tests.{if◌then◌else◌}

-- Whether every number below the bound passes the test, tried from the largest down.
unfoldable pub all_below : ℕ → (ℕ → Bool) → Bool
all_below zero test = true
all_below (suc bound) test =
    let smaller = all_below bound test in if test bound then smaller else false

pub passes_below :
    (bound : ℕ) {k : ℕ} (test : ℕ → Bool) → all_below bound test ≡ true → k < bound → test k ≡ true
unfolding all_below
passes_below zero test checked small = absurd (omega arith)
passes_below (suc bound) {k = k} test checked small =
    ground (arith, passes_below bound {k = k} test)
