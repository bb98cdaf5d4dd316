-- ===== src/Kdebug/Search/Found.antt =====
-- In a sorted table, `stab_binsearch` finds the last stab of the type up to an address.
use atlos.Base.{
  ℕ, ◌+◌, ◌-◌, ◌<◌, ◌≤◌, ◌≡◌, ◌⊎◌, inl, inr, refl, Bool, true, false, some, ltb, pos, arith, ap,
  sym, ◌∙◌, Bool-cases, ℕ-eq_cases, ne→==,
}
use atlos.Kdebug.Search.{Stab, typed, rightmost, region, stab_binsearch}
use atlos.Kdebug.Search.Rounds.{IsSorted, Brackets}
use atlos.Kdebug.Search.Ends.{narrow-Ends, start}
use atlos.Kdebug.Search.Bracket.{Bare, rightmost-lem}

-- The last stab of the type whose value is `addr` at most, with the end of its region.
abbrev pub IsFound : (ℕ → Stab) → ℕ → ℕ → ℕ → ℕ → ℕ → ℕ → Type 0
IsFound stabs type lo hi addr q end =
    (lo ≤ q)
    × (q < end)
    × (end ≤ hi)
    × (typed stabs type q ≡ true)
    × ((stabs q).n_value ≤ addr)
    × Bare stabs type q end
    × ((end ≡ hi) ⊎ (typed stabs type end ≡ true))
    × ((i : ℕ) → end ≤ i → i < hi → typed stabs type i ≡ true → addr < (stabs i).n_value)

module _ (stabs : ℕ → Stab) (type lo hi addr : ℕ) (sorted : IsSorted stabs type lo hi addr) where
  module _ (p : ℕ) (ge : lo ≤ p) (lt : p < hi) (hit : typed stabs type p ≡ true)
      (low : (stabs p).n_value ≤ addr) where
    module _ (l left right : ℕ) (any : Bool) (now : ℕ) (gone : right ≤ l)
        (s : Brackets stabs type lo hi addr l left right any now) where
      before_end : p < right
      before_end = elim (Bool-cases (ltb p right)) [
        | inl b ↦ ground (arith, b)
        | inr b ↦ absurd (omega (arith, low, s.above p (ground (arith, b)) lt hit))
      ]

      left-bounds : (lo ≤ left) × (left < right)
      left-bounds = elim s.left_is [
        | inl e ↦ (omega (arith, e), omega (arith, e, ge, before_end))
        | inr (ge', bound, typ, le) ↦ (
          ge',
          elim (Bool-cases (ltb left right)) [
            | inl b ↦ ground (arith, b)
            | inr b ↦ absurd (omega (arith, le, s.above left (ground (arith, b)) bound typ))
          ],
        )
      ]

      -- An index from `left` on behind which nothing of the type follows is of the type.
      last-typed :
          (q : ℕ)
          → left ≤ q
          → Bare stabs type q right
          → (q ≡ left) ⊎ (typed stabs type q ≡ true)
          → typed stabs type q ≡ true
      last-typed q from bare (inr typ) = typ
      last-typed q from bare (inl e) = elim s.left_is [
        | inr (ge', bound, typ, le) ↦ rw e typ
        | inl at ↦ elim (ℕ-eq_cases p q) [
          | inl same ↦ rw (sym same) hit
          | inr ne ↦ absurd (ground (arith, hit, bare p (omega (arith, ne, e, at, ge)) before_end))
        ]
      ]

      IsFound-at :
          (q : ℕ)
          → left ≤ q
          → q < right
          → Bare stabs type q right
          → (q ≡ left) ⊎ (typed stabs type q ≡ true)
          → IsFound stabs type lo hi addr q right
      IsFound-at q from bound bare which =
          let typ = last-typed q from bare which in
          let ge' : lo ≤ q = omega (arith, from, left-bounds) in
          (
            ge',
            bound,
            s.to_hi,
            typ,
            s.below q ge' (omega (arith, bound, gone)) typ,
            bare,
            s.right_is,
            s.above,
          )

    IsFound-region :
        (l left right : ℕ) (any : Bool) (now : ℕ)
        → right ≤ l
        → Brackets stabs type lo hi addr l left right any now
        → (q : ℕ) × (region stabs type any left right ≡ (pos q, right))
          × IsFound stabs type lo hi addr q right
    unfolding region
    IsFound-region l left right false now gone s = absurd (
        ground (
          arith,
          hit,
          s.nothing refl p ge (omega (arith, gone, before_end l left right false now gone s)),
        ))
    IsFound-region l left right true now gone s =
        let (from, bound) = left-bounds l left right true now gone s in
        elim (Bool-cases (ltb (left + 1) right)) [
          | inl more ↦
              let (ge', le', bare, which) = rightmost-lem stabs type left (right - 1 - left) in
              let e : left + (right - 1 - left) + 1 ≡ right = omega (arith, bound) in
              let q = rightmost stabs type left (right - 1 - left) in
              (
                q,
                rw (region, more) refl,
                IsFound-at l left right true now gone s q ge' (omega (arith, le', e)) (rw e at bare)
                    which,
              )
          | inr no_more ↦
              let e : right - 1 ≡ left = ground (arith, bound, no_more) in
              (
                left,
                rw (region, no_more, ne→== right 0 (λ z. omega (arith, z, bound)), e) refl,
                IsFound-at l left right true now gone s left (omega arith) bound
                    (λ i lo' hi'. absurd (omega (arith, e, lo', hi'))) (inl refl),
              )
        ]

    -- In a sorted table that has, between two indexes, a stab of the type whose value is `addr` at most,
    -- and none of the type with the value `addr + 1`, `stab_binsearch` ends within two rounds more
    -- than there are stabs. The left end is the last stab of the type with such a value; up to the
    -- right end no other one of the type follows, and from there on their values are greater.
    pub stab_binsearch-IsFound :
        (f : ℕ)
        → hi - lo + 1 < f
        → (q end : ℕ) × (stab_binsearch stabs type f lo hi addr ≡ some (pos q, end))
          × IsFound stabs type lo hi addr q end
    unfolding stab_binsearch
    stab_binsearch-IsFound f enough =
        let (l, left, right, any, now, run, gone, s) =
          narrow-Ends stabs type lo hi addr sorted f lo lo hi false addr
            (start stabs type lo hi addr sorted (omega (arith, ge, lt))) (omega (arith, enough)) in
        let (q, eq, is) = IsFound-region l left right any now gone s in
        (q, right, rw (stab_binsearch, run) (ap some eq), is)

  -- There is one such region.
  not_before :
      (q end q' end' : ℕ)
      → IsFound stabs type lo hi addr q end
      → IsFound stabs type lo hi addr q' end'
      → q' ≤ q
  not_before q end q' end' (ge, lt, le, typ, low, bare, stop, above)
        (ge', lt', le', typ', low', bare', stop', above') =
      elim (Bool-cases (ltb q q')) [
        | inr b ↦ ground (arith, b)
        | inl b ↦ elim (Bool-cases (ltb q' end)) [
          | inl c ↦ absurd (ground (arith, typ', bare q' (ground (arith, b)) (ground (arith, c))))
          | inr c ↦
              absurd
                (omega (arith, low', above q' (ground (arith, c)) (omega (arith, lt', le')) typ'))
        ]
      ]

  end_not_before :
      (q end end' : ℕ)
      → IsFound stabs type lo hi addr q end
      → IsFound stabs type lo hi addr q end'
      → end' ≤ end
  end_not_before q end end' (ge, lt, le, typ, low, bare, stop, above)
        (ge', lt', le', typ', low', bare', stop', above') =
      elim (Bool-cases (ltb end end')) [
        | inr b ↦ ground (arith, b)
        | inl b ↦ elim stop [
          | inl e ↦ absurd (ground (arith, e, b, le'))
          | inr t ↦ absurd (ground (arith, t, bare' end lt (ground (arith, b))))
        ]
      ]

  -- The search returns the region that is found, if there is one.
  pub stab_binsearch_unique :
      (f q end : ℕ)
      → hi - lo + 1 < f
      → IsFound stabs type lo hi addr q end
      → stab_binsearch stabs type f lo hi addr ≡ some (pos q, end)
  stab_binsearch_unique f q end enough is =
      let (ge, lt, le, typ, low, bare, stop, above) = is in
      let (q', end', run, is') =
        stab_binsearch-IsFound q ge (omega (arith, lt, le)) typ low f enough in
      let same : q' ≡ q =
        omega (arith, not_before q end q' end' is is', not_before q' end' q end is' is) in
      let is'' : IsFound stabs type lo hi addr q end' = rw same at is' in
      let end_same : end' ≡ end =
        omega (arith, end_not_before q end end' is is'', end_not_before q end' end is'' is) in
      run ∙ ap (λ (t : ℕ). some (pos t, end')) same ∙ ap (λ (t : ℕ). some (pos q, t)) end_same
