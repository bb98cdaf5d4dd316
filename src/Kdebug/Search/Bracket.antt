-- ===== src/Kdebug/Search/Bracket.antt =====
-- What the search brackets in a sorted table.
use atlos.Base.{
  ℕ, zero, suc, ◌+◌, ◌<◌, ◌≤◌, ◌≡◌, ◌⊎◌, inl, inr, refl, true, false, none, some, arith, sym,
  Bool-cases, ℕ-eq_cases,
}
use atlos.Kdebug.Search.{Stab, typed, find_back, rightmost}

module _ (stabs : ℕ → Stab) (type : ℕ) where
  -- No stab of the type stands behind `lo` and before `hi`.
  abbrev pub Bare : ℕ → ℕ → Type 0
  Bare lo hi = (i : ℕ) → lo < i → i < hi → typed stabs type i ≡ false

  -- The last stab of the type among those from `l` to `l + n`.
  pub find_back-some :
      (l n m : ℕ)
      → find_back stabs type l n ≡ some m
      → (l ≤ m) × (m ≤ l + n) × (typed stabs type m ≡ true) × Bare m (l + n + 1)
  unfolding find_back
  find_back-some l zero m e = elim (Bool-cases (typed stabs type l)) [
    | inl yes_l ↦
        let at : l ≡ m = ground (arith, e, yes_l) in
        (
          omega (arith, at),
          omega (arith, at),
          rw (sym at) yes_l,
          λ i lo hi. absurd (omega (arith, at, lo, hi)),
        )
    | inr no_l ↦ absurd (ground (arith, e, no_l))
  ]
  find_back-some l (suc n) m e = elim (Bool-cases (typed stabs type (l + suc n))) [
    | inl yes_l ↦
        let at : l + suc n ≡ m = ground (arith, e, yes_l) in
        (
          omega (arith, at),
          omega (arith, at),
          rw (sym at) yes_l,
          λ i lo hi. absurd (omega (arith, at, lo, hi)),
        )
    | inr no_l ↦
        let (ge, le, hit, bare) = find_back-some l n m (ground (arith, e, no_l)) in
        (
          ge,
          omega (arith, le),
          hit,
          λ i lo hi. elim (ℕ-eq_cases i (l + suc n)) [
            | inl at ↦ rw (at) no_l
            | inr ne ↦ bare i lo (omega (arith, ne, hi))
          ],
        )
  ]

  pub find_back-none :
      (l n i : ℕ) → find_back stabs type l n ≡ none → l ≤ i → i ≤ l + n → typed stabs type i ≡ false
  unfolding find_back
  find_back-none l zero i e lo hi =
      let at : i ≡ l = omega (arith, lo, hi) in rw at (ground (arith, e))
  find_back-none l (suc n) i e lo hi = elim (Bool-cases (typed stabs type (l + suc n))) [
    | inl yes_l ↦ absurd (ground (arith, e, yes_l))
    | inr no_l ↦ elim (ℕ-eq_cases i (l + suc n)) [
      | inl at ↦ rw (at) no_l
      | inr ne ↦ find_back-none l n i (ground (arith, e, no_l)) lo (omega (arith, ne, hi))
    ]
  ]

  pub rightmost-lem :
      (left n : ℕ)
      → (left ≤ rightmost stabs type left n)
        × (rightmost stabs type left n ≤ left + n)
        × Bare (rightmost stabs type left n) (left + n + 1)
        × ((rightmost stabs type left n ≡ left)
            ⊎ (typed stabs type (rightmost stabs type left n) ≡ true))
  unfolding rightmost
  rightmost-lem left zero =
      (omega arith, omega arith, λ i lo hi. absurd (omega (arith, lo, hi)), inl refl)
  rightmost-lem left (suc n) = elim (Bool-cases (typed stabs type (left + suc n))) [
    | inl yes_l ↦
        rw (yes_l) (omega arith, omega arith, λ i lo hi. absurd (omega (arith, lo, hi)), inr yes_l)
    | inr no_l ↦
        let (ge, le, bare, which) = rightmost-lem left n in
        rw (no_l) (
          ge,
          omega (arith, le),
          (λ i lo hi. elim (ℕ-eq_cases i (left + suc n)) [
            | inl at ↦ rw (at) no_l
            | inr ne ↦ bare i lo (omega (arith, ne, hi))
          ]),
          which,
        )
  ]
