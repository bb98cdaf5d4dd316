-- ===== src/Bitmap/Scan/First.antt =====
-- The search for one bit finds the first clear one.
use atlos.Base.{
  ℕ, zero, suc, ◌+◌, ◌/◌, ◌%◌, ◌^◌, ◌<◌, ◌≡◌, inl, inr, not, Option, none, some, ltb, ◌==◌,
  if◌then◌else◌, arith, bit, bit-zero, bit-le, bit-bit_and, bit_below_pow, bit_above, bit_top,
  all_zero, bit_and, ap, ◌∙◌, Bool-cases, ℕ-eq_cases,
}
use native.Mathlib.Nat.{pow-suc, one-le-pow}
use atlos.Bitmap.{Bitmap}
use atlos.Bitmap.Update.{bit_at}
use atlos.Bitmap.Scan.{Cursor, byte_bit}

-- The first clear bit among the `n` bits from `p` on.
abbrev pub first_clear : Bitmap → ℕ → ℕ → Option ℕ
first_clear map zero p = none
first_clear map (suc n) p =
    let rest = first_clear map n (p + 1) in if bit_at map p == 0 then some p else rest

abbrev pub cursor : ℕ → Cursor
cursor p = record { byte = p / 8; off = p % 8 }

-- A digit is 0 exactly if the mask of its place says so.
pow_above : (k : ℕ) → 2 ^ k < 2 ^ suc k
pow_above k = omega (arith, pow-suc 2 k, one-le-pow k 2)

pow_digit : (k : ℕ) → bit (2 ^ k) k ≡ 1
pow_digit k = bit_top k (2 ^ k) (omega arith) (pow_above k)

masked-zero : (x k : ℕ) → bit x k ≡ 0 → bit_and x (2 ^ k) ≡ 0
masked-zero x k z = all_zero (bit_and x (2 ^ k)) digit
  where
    digit : (i : ℕ) → bit (bit_and x (2 ^ k)) i ≡ 0
    digit i = elim (ℕ-eq_cases i k) [
      | inl e ↦ rw (e, bit-bit_and x (2 ^ k) k) (omega (arith, z))
      | inr ne ↦ elim (Bool-cases (ltb i k)) [
        | inl below ↦
            omega (arith, bit-bit_and x (2 ^ k) i, bit_below_pow k i (ground (arith, below)))
        | inr ge ↦
            let above = bit_above (suc k) (2 ^ k) i (pow_above k) (ground (arith, ne, ge)) in
            omega (arith, bit-bit_and x (2 ^ k) i, above)
      ]
    ]

zero-masked : (x k : ℕ) → bit_and x (2 ^ k) ≡ 0 → bit x k ≡ 0
zero-masked x k z =
    omega (
      arith,
      ap (λ (t : ℕ). bit t k) z,
      bit-bit_and x (2 ^ k) k,
      pow_digit k,
      bit-zero k,
      bit-le x k,
    )

pub byte_bit-at : (map : Bitmap) (p : ℕ) → byte_bit map (cursor p) ≡ not (bit_at map p == 0)
byte_bit-at map p = elim (ℕ-eq_cases (bit_at map p) 0) [
  | inl z ↦ ground (arith, masked-zero (map.buff (p / 8)) (p % 8) z)
  | inr nz ↦ ground (arith, nz, zero-masked (map.buff (p / 8)) (p % 8))
]

module _ (map : Bitmap) where
  pub first_clear-past :
      (k j p : ℕ)
      → first_clear map k p ≡ none
      → first_clear map (k + j) p ≡ first_clear map j (p + k)
  first_clear-past zero j p none_here =
      let at_j : 0 + j ≡ j = omega arith in
      let at_p : p ≡ p + 0 = omega arith in
      ap (λ (n : ℕ). first_clear map n p) at_j ∙ ap (first_clear map j) at_p
  first_clear-past (suc k) j p none_here =
      let e : p + suc k ≡ p + 1 + k = omega arith in
      let e' : suc k + j ≡ suc (k + j) = omega arith in
      rw (e, e') (ground (arith, none_here, first_clear-past k j (p + 1)))

  pub first_clear-found :
      (k j p q : ℕ) → first_clear map k p ≡ some q → first_clear map (k + j) p ≡ some q
  first_clear-found zero j p q here = absurd (ground (arith, here))
  first_clear-found (suc k) j p q here =
      let e : suc k + j ≡ suc (k + j) = omega arith in
      rw (e) (ground (arith, here, first_clear-found k j (p + 1) q))
