-- ===== src/Base/Below.antt =====
-- A test of the first numbers, one by one.
use Prim.Native.Nat.{ℕ, zero, suc, ◌<◌}
use mathlib.Core.Path.{◌≡◌}
use mathlib.Core.Bool.{Bool, true, false}
use gpti84_plus.Base.Tests.{if◌then◌else◌}
use native.Mathlib.Omega.{arith}

unfoldable pub passes_below : (ℕ → Bool) → ℕ → Bool
passes_below test zero = true
passes_below test (suc k) = let rest = passes_below test k in if test k then rest else false

pub passes_below-true :
    (test : ℕ → Bool) (k c : ℕ) → c < k → passes_below test k ≡ true → test c ≡ true
unfolding passes_below
passes_below-true test zero c small ran = absurd (omega arith)
passes_below-true test (suc k) c small ran =
    let earlier = passes_below-true test k c in ground (arith, earlier)
