-- ===== src/Str/Length.antt =====
-- `strlen` and `strnlen`.
use atlos.Base.{ℕ, zero, suc, ◌+◌, ◌^◌, ◌<◌, ◌≡◌, some, List, [], ◌∷◌, length, min, arith}
use atlos.Str.{Mem, strlen, strlen_loop, strnlen, strnlen_loop}
use atlos.Str.Text.{IsStr}

module _ (m : Mem) where
  strlen_from :
      (f : ℕ) (xs : List ℕ) (s cnt : ℕ)
      → IsStr m s xs
      → length xs < f
      → cnt + length xs < 2 ^ 32
      → strlen_loop f m s cnt ≡ some (cnt + length xs)
  unfolding strlen_loop
  strlen_from zero xs s cnt h fuel small = absurd (omega arith)
  strlen_from (suc f) [] s cnt h fuel small = ground arith
  strlen_from (suc f) (x ∷ xs) s cnt h fuel small =
      ground (arith, strlen_from f xs (s + 1) (cnt + 1))

  -- Given a round more than the string at `s` has bytes, fewer than 2^32, `strlen` ends with their
  -- number.
  pub strlen-length :
      (f : ℕ) (xs : List ℕ) (s : ℕ)
      → IsStr m s xs
      → length xs < f
      → length xs < 2 ^ 32
      → strlen f m s ≡ some (length xs)
  unfolding strlen
  strlen-length f xs s h fuel small = ground (arith, strlen_from f xs s 0)

  strnlen_from :
      (xs : List ℕ) (s len cnt : ℕ)
      → IsStr m s xs
      → strnlen_loop len m s cnt ≡ cnt + min (length xs) len
  unfolding strnlen_loop
  strnlen_from xs s zero cnt h = omega arith
  strnlen_from [] s (suc len) cnt h = ground arith
  strnlen_from (x ∷ xs) s (suc len) cnt h = ground (arith, strnlen_from xs (s + 1) len (cnt + 1))

  pub strnlen-min : (xs : List ℕ) (s len : ℕ) → IsStr m s xs → strnlen m s len ≡ min (length xs) len
  unfolding strnlen
  strnlen-min xs s len h = omega (arith, strnlen_from xs s len 0 h)
