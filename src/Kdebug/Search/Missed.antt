-- ===== src/Kdebug/Search/Missed.antt =====
-- What `stab_binsearch` returns where all stabs of the type lie above the address.
use atlos.Base.{
  ℕ, ◌+◌, ◌-◌, ◌<◌, ◌≤◌, ◌≡◌, inl, inr, refl, Bool, true, false, some, ltb, ◌==◌, if◌then◌else◌, ℤ,
  pos, negsuc, arith, ap, Bool-cases, ℕ-eq_cases, lt→ltb, ne→==,
}
use atlos.Kdebug.Search.{Stab, typed, rightmost, region, stab_binsearch}
use atlos.Kdebug.Search.Rounds.{IsSorted, Brackets, no_lt}
use atlos.Kdebug.Search.Ends.{narrow-Ends, start}
use atlos.Kdebug.Search.Bracket.{rightmost-lem}

-- The left end where all values are greater than `addr`, as an int.
abbrev pub missed : ℕ → ℕ → ℤ
missed lo end = if ltb lo end then pos lo else if lo == 0 then negsuc 0 else pos (lo - 1)

module _ (stabs : ℕ → Stab) (type lo hi addr : ℕ) (sorted : IsSorted stabs type lo hi addr) where
  module _ (p : ℕ) (ge : lo ≤ p) (lt : p < hi) (hit : typed stabs type p ≡ true)
      (high : (i : ℕ)
        → lo ≤ i
        → i < hi
        → typed stabs type i ≡ true
        → addr < (stabs i).n_value) where
    missed-region :
        (l left right : ℕ) (any : Bool) (now : ℕ)
        → right ≤ l
        → Brackets stabs type lo hi addr l left right any now
        → (right < hi)
          × (typed stabs type right ≡ true)
          × (region stabs type any left right ≡ (missed lo right, right))
    unfolding region
    missed-region l left right false now gone s =
        absurd (ground (arith, hit, s.nothing refl p ge (omega (arith, gone, lt, s.whole refl))))
    missed-region l left right true now gone s = (bound, typ, shape)
      where
        none_low : (i : ℕ) → lo ≤ i → i < right → typed stabs type i ≡ true → ⊥
        none_low i ge' lt' t = omega (
          arith,
          s.below i ge' (omega (arith, gone, lt')) t,
          high i ge' (omega (arith, lt', s.to_hi)) t,
        )

        bound : right < hi
        bound = elim (Bool-cases (ltb p right)) [
          | inl b ↦ absurd (none_low p ge (ground (arith, b)) hit)
          | inr b ↦ ground (arith, b, lt)
        ]

        typ : typed stabs type right ≡ true
        typ = elim s.right_is [ inl e ↦ absurd (omega (arith, e, bound)) | inr t ↦ t ]

        at : left ≡ lo
        at = elim s.left_is [
          | inl e ↦ e
          | inr (ge', bound', t, le) ↦ absurd (omega (arith, le, high left ge' bound' t))
        ]

        back : (n : ℕ) → lo + n < right → rightmost stabs type lo n ≡ lo
        back n lt' =
            let (ge', le', bare, which) = rightmost-lem stabs type lo n in
            elim which [
              | inl e ↦ e
              | inr t ↦
                  absurd (none_low (rightmost stabs type lo n) ge' (omega (arith, le', lt')) t)
            ]

        shape : region stabs type true left right ≡ (missed lo right, right)
        shape = rw (at) (elim (Bool-cases (ltb (lo + 1) right)) [
          | inl more ↦
              let below : lo < right = ground (arith, more) in
              rw (region, more, back (right - 1 - lo) (omega (arith, below)), lt→ltb lo right below)
                refl
          | inr no_more ↦ elim (ℕ-eq_cases right lo) [
            | inl e ↦
                rw (region, e, no_lt (lo + 1) lo (omega arith), no_lt lo lo (omega arith))
                  (ground arith)
            | inr ne ↦
                let below : lo < right = omega (arith, ne, s.from_right) in
                let e : right - 1 ≡ lo = ground (arith, below, no_more) in
                rw
                  (
                    region,
                    no_more,
                    ne→== right 0 (λ z. omega (arith, z, below)),
                    e,
                    lt→ltb lo right below,
                  )
                  refl
          ]
        ])

    -- In a sorted table that has, between two indexes, a stab of the type, but all of their values are
    -- greater than `addr`, and none is `addr + 1`, `stab_binsearch` ends within two rounds more than
    -- there are stabs. The right end is just in front of a stab of the type. The left end is the first
    -- index, or, if that stab stands there, the one in front of it: the left end is not behind the
    -- right one.
    pub stab_binsearch-misses :
        (f : ℕ)
        → hi - lo + 1 < f
        → (end : ℕ) × (lo ≤ end)
          × (end < hi)
          × (typed stabs type end ≡ true)
          × (stab_binsearch stabs type f lo hi addr ≡ some (missed lo end, end))
    unfolding stab_binsearch
    stab_binsearch-misses f enough =
        let (l, left, right, any, now, run, gone, s) =
          narrow-Ends stabs type lo hi addr sorted f lo lo hi false addr
            (start stabs type lo hi addr sorted (omega (arith, ge, lt))) (omega (arith, enough)) in
        let (bound, typ, eq) = missed-region l left right any now gone s in
        (right, s.from_right, bound, typ, rw (stab_binsearch, run) (ap some eq))
