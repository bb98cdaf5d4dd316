-- ===== src/Base/Table.antt =====
-- Checking a property of small numbers by evaluation.
use Prim.Native.Nat.{ℕ, zero, suc, ◌<◌}
use mathlib.Core.Path.{◌≡◌}
use mathlib.Core.Bool.{Bool, true, false}
use native.Mathlib.Omega.{arith}
use atlos.Base.Tests.{if◌then◌else◌}

-- A test on all numbers below a bound, by evaluation.
unfoldable pub holds_below : ℕ → (ℕ → Bool) → Bool
holds_below zero test = true
holds_below (suc n) test = let before = holds_below n test in if test n then before else false

pub below_holds :
    (n : ℕ) (test : ℕ → Bool) (i : ℕ) → holds_below n test ≡ true → i < n → test i ≡ true
unfolding holds_below
below_holds zero test i h lt = absurd (omega arith)
below_holds (suc n) test i h lt = ground (arith, below_holds n test i)
