-- ===== src/Base/Ints.antt =====
-- Signed results: integers over the native numbers, and the difference of two numbers.
use Prim.Native.Nat.{ℕ, zero, ◌-◌, ◌<◌}
use mathlib.Core.Path.{◌≡◌}
use mathlib.Core.Logic.{◌↔◌}
use mathlib.Core.Bool.{Bool, true, false}
use native.Mathlib.Omega.{arith}
use atlos.Base.Tests.{ltb, if◌then◌else◌}

pub data ℤ : Type 0 where
  pos : ℕ → ℤ
  negsuc : ℕ → ℤ

-- `a - b` as an int.
abbrev pub minus : ℕ → ℕ → ℤ
minus a b = if ltb a b then ℤ.negsuc (b - a - 1) else ℤ.pos (a - b)

abbrev pub is_neg : ℤ → Bool
is_neg (ℤ.pos a) = false
is_neg (ℤ.negsuc a) = true

abbrev pub is_zero : ℤ → Bool
is_zero (ℤ.pos zero) = true
is_zero z = false

pub minus-is_zero : (a b : ℕ) → (is_zero (minus a b) ≡ true) ↔ (a ≡ b)
minus-is_zero a b = ground arith

pub minus-is_neg : (a b : ℕ) → (is_neg (minus a b) ≡ true) ↔ (a < b)
minus-is_neg a b = ground arith
