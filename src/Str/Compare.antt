-- ===== src/Str/Compare.antt =====
-- `strcmp`, `strncmp` and `memcmp`.
use atlos.Base.{
  ℕ, zero, suc, ◌+◌, ◌<◌, ◌≡◌, ◌↔◌, refl, true, some, List, [], ◌∷◌, length, take, arith,
  if◌then◌else◌, ◌==◌, ℤ, pos, minus, is_zero, minus-is_zero,
}
use atlos.Str.{Mem, strcmp, strncmp, memcmp}
use atlos.Str.Text.{Holds, IsStr}

-- The order of two strings: the difference of their first bytes that differ, where the end of a
-- string counts as 0.
abbrev pub order : List ℕ → List ℕ → ℤ
order [] [] = pos 0
order [] (y ∷ ys) = minus 0 y
order (x ∷ xs) [] = minus x 0
order (x ∷ xs) (y ∷ ys) = if x == y then order xs ys else minus x y

module _ (m : Mem) where
  -- Given a round more than the first string has bytes, `strcmp` ends with the order of the two
  -- strings.
  pub strcmp-order :
      (f : ℕ) (xs ys : List ℕ) (s t : ℕ)
      → IsStr m s xs
      → IsStr m t ys
      → length xs < f
      → strcmp f m s t ≡ some (order xs ys)
  unfolding strcmp
  strcmp-order zero xs ys s t h k fuel = absurd (omega arith)
  strcmp-order (suc f) [] [] s t h k fuel = ground arith
  strcmp-order (suc f) [] (y ∷ ys) s t h k fuel = ground arith
  strcmp-order (suc f) (x ∷ xs) [] s t h k fuel = ground arith
  strcmp-order (suc f) (x ∷ xs) (y ∷ ys) s t h k fuel =
      ground (arith, strcmp-order f xs ys (s + 1) (t + 1))

  pub strncmp-order :
      (n : ℕ) (xs ys : List ℕ) (s t : ℕ)
      → IsStr m s xs
      → IsStr m t ys
      → strncmp m s t n ≡ order (take n xs) (take n ys)
  unfolding strncmp
  strncmp-order zero xs ys s t h k = refl
  strncmp-order (suc n) [] [] s t h k = ground arith
  strncmp-order (suc n) [] (y ∷ ys) s t h k = ground arith
  strncmp-order (suc n) (x ∷ xs) [] s t h k = ground arith
  strncmp-order (suc n) (x ∷ xs) (y ∷ ys) s t h k =
      ground (arith, strncmp-order n xs ys (s + 1) (t + 1))

  pub memcmp-order :
      (xs ys : List ℕ) (s t : ℕ)
      → Holds m s xs
      → Holds m t ys
      → length xs ≡ length ys
      → memcmp m s t (length xs) ≡ order xs ys
  unfolding memcmp
  memcmp-order [] [] s t h k e = refl
  memcmp-order [] (y ∷ ys) s t h k e = absurd (omega arith)
  memcmp-order (x ∷ xs) [] s t h k e = absurd (omega arith)
  memcmp-order (x ∷ xs) (y ∷ ys) s t h k e = ground (arith, memcmp-order xs ys (s + 1) (t + 1))

  order_same : (xs : List ℕ) → order xs xs ≡ pos 0
  order_same [] = refl
  order_same (x ∷ xs) = ground (arith, order_same xs)

  order_zero :
      (xs ys : List ℕ) (s t : ℕ)
      → IsStr m s xs
      → IsStr m t ys
      → is_zero (order xs ys) ≡ true
      → xs ≡ ys
  order_zero [] [] s t h k z = refl
  order_zero [] (y ∷ ys) s t h k z = ground (arith, minus-is_zero 0 y)
  order_zero (x ∷ xs) [] s t h k z = ground (arith, minus-is_zero x 0)
  order_zero (x ∷ xs) (y ∷ ys) s t h k z =
      ground (arith, minus-is_zero x y, order_zero xs ys (s + 1) (t + 1))

  -- Given a round more than the first string has bytes, `strcmp` ends with 0 exactly if the two
  -- strings are equal.
  pub strcmp-zero :
      (f : ℕ) (xs ys : List ℕ) (s t : ℕ)
      → IsStr m s xs
      → IsStr m t ys
      → length xs < f
      → (r : ℤ) × (strcmp f m s t ≡ some r) × ((is_zero r ≡ true) ↔ (xs ≡ ys))
  strcmp-zero f xs ys s t h k fuel = (
    order xs ys,
    strcmp-order f xs ys s t h k fuel,
    (order_zero xs ys s t h k, λ e. ground (arith, order_same xs)),
  )
