-- ===== src/Str/Find.antt =====
-- `strchr` and `strfind`.
use atlos.Base.{
  ℕ, zero, suc, ◌+◌, ◌<◌, ◌≡◌, some, List, [], ◌∷◌, length, arith, has, if◌then◌else◌, ◌==◌,
}
use atlos.Str.{Mem, strchr, strfind}
use atlos.Str.Text.{IsStr}

-- How many bytes stand before the first `c`: all of them, if there is none.
abbrev pub before : ℕ → List ℕ → ℕ
before c [] = 0
before c (x ∷ xs) = let n = before c xs in if x == c then 0 else suc n

module _ (m : Mem) (c : ℕ) where
  strfind_lem :
      (f : ℕ) (xs : List ℕ) (s : ℕ)
      → IsStr m s xs
      → length xs < f
      → strfind f m s c ≡ some (s + before c xs)
  unfolding strfind
  strfind_lem zero xs s h fuel = absurd (omega arith)
  strfind_lem (suc f) [] s h fuel = ground arith
  strfind_lem (suc f) (x ∷ xs) s h fuel = ground (arith, strfind_lem f xs (s + 1))

  strchr_lem :
      (f : ℕ) (xs : List ℕ) (s : ℕ)
      → IsStr m s xs
      → length xs < f
      → strchr f m s c ≡ some (if has c xs then s + before c xs else 0)
  unfolding strchr
  strchr_lem zero xs s h fuel = absurd (omega arith)
  strchr_lem (suc f) [] s h fuel = ground arith
  strchr_lem (suc f) (x ∷ xs) s h fuel = ground (arith, strchr_lem f xs (s + 1))

  -- Given a round more than the string has bytes, `strfind` ends at the first byte `c` of the
  -- string or at its null byte, and `strchr` at the first byte `c` or with NULL.
  pub strchr-strfind :
      (f : ℕ) (xs : List ℕ) (s : ℕ)
      → IsStr m s xs
      → length xs < f
      → (strfind f m s c ≡ some (s + before c xs))
        × (strchr f m s c ≡ some (if has c xs then s + before c xs else 0))
  strchr-strfind f xs s h fuel = (strfind_lem f xs s h fuel, strchr_lem f xs s h fuel)
