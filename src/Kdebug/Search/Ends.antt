-- ===== src/Kdebug/Search/Ends.antt =====
-- The rounds of `stab_binsearch` end.
use atlos.Base.{
  ℕ, zero, suc, ◌+◌, ◌-◌, ◌/◌, ◌%◌, ◌^◌, ◌<◌, ◌≤◌, ◌≡◌, inl, inr, refl, Bool, true, false, none,
  some, ltb, arith, Bool-cases, Option-cases, lt→ltb,
}
use atlos.Kdebug.Search.{Stab, find_back, narrow}
use atlos.Kdebug.Search.Bracket.{find_back-some}
use atlos.Kdebug.Search.Rounds.{
  IsSorted, Brackets, no_lt, step_none, step_above, step_below, step_exact,
}

module _ (stabs : ℕ → Stab) (type lo hi addr : ℕ) (sorted : IsSorted stabs type lo hi addr) where
  -- The rounds end with nothing left between the two parts.
  abbrev pub Ends : ℕ → ℕ → ℕ → ℕ → Bool → ℕ → Type 0
  Ends f l left right any now =
      (l' left' right' : ℕ) × (any' : Bool) × (now' : ℕ) × (narrow stabs type f l left right any now
        ≡ some (any', (left', right')))
      × (right' ≤ l')
      × Brackets stabs type lo hi addr l' left' right' any' now'

  -- One round, where `rest` is about those that follow.
  module _ (f l left right : ℕ) (any : Bool) (now : ℕ)
      (rest : (l left right : ℕ) (any : Bool) (now : ℕ)
        → Brackets stabs type lo hi addr l left right any now
        → right - l + (addr + 1 - now) < f
        → Ends f l left right any now)
      (s : Brackets stabs type lo hi addr l left right any now)
      (enough : right - l + (addr + 1 - now) < suc f) (inside : l < right) where
    abbrev mid : ℕ
    mid = (l + (right - 1)) / 2

    within : l + (mid - l) < right
    within = omega (arith, inside)

    next : l + (mid - l) + 1 ≡ mid + 1
    next = omega (arith, inside)

    round_none : find_back stabs type l (mid - l) ≡ none → Ends (suc f) l left right any now
    unfolding narrow
    round_none e =
        let on =
          rw next at
            (step_none stabs type lo hi addr sorted l left right any now (mid - l) s within e) in
        let (l', left', right', any', now', run, gone, state) =
          rest (mid + 1) left right any now on (omega (arith, enough, inside)) in
        (l', left', right', any', now', rw (narrow, lt→ltb l right inside, e) run, gone, state)

    module _ (m : ℕ) (e : find_back stabs type l (mid - l) ≡ some m) where
      bounds : (l ≤ m) × (m < right)
      bounds =
          let (ge, le, typ, bare) = find_back-some stabs type l (mid - l) m e in
          (ge, omega (arith, le, within))

      round_above : (stabs m).n_value < now → Ends (suc f) l left right any now
      unfolding narrow
      round_above lt =
          let on = rw next at (
            step_above stabs type lo hi addr sorted l left right any now (mid - l) s within m e
              lt) in
          let (l', left', right', any', now', run, gone, state) =
            rest (mid + 1) m right true now on (omega (arith, enough, inside)) in
          (
            l',
            left',
            right',
            any',
            now',
            rw (narrow, lt→ltb l right inside, e, lt→ltb ((stabs m).n_value) now lt) run,
            gone,
            state,
          )

      round_below : now < (stabs m).n_value → Ends (suc f) l left right any now
      unfolding narrow
      round_below gt =
          let on =
            step_below stabs type lo hi addr sorted l left right any now (mid - l) s within m e
              gt in
          let (l', left', right', any', now', run, gone, state) =
            rest l left m true now on (omega (arith, enough, inside, bounds)) in
          (
            l',
            left',
            right',
            any',
            now',
            rw
                (
                  narrow,
                  lt→ltb l right inside,
                  e,
                  lt→ltb now ((stabs m).n_value) gt,
                  no_lt ((stabs m).n_value) now (omega (arith, gt)),
                )
                run,
            gone,
            state,
          )

      round_exact : (stabs m).n_value ≡ now → Ends (suc f) l left right any now
      unfolding narrow
      round_exact eq =
          let (at, on) =
            step_exact stabs type lo hi addr sorted l left right any now (mid - l) s within m e
              eq in
          let (l', left', right', any', now', run, gone, state) =
            rest m m right true (addr + 1) on (omega (arith, enough, inside, bounds, at)) in
          let word : (now + 1) % 2 ^ 32 ≡ addr + 1 = omega (arith, at, sorted.small) in
          (
            l',
            left',
            right',
            any',
            now',
            rw
                (
                  narrow,
                  lt→ltb l right inside,
                  e,
                  no_lt ((stabs m).n_value) now (omega (arith, eq)),
                  no_lt now ((stabs m).n_value) (omega (arith, eq)),
                  word,
                )
                run,
            gone,
            state,
          )

  -- Where the rounds are enough, they end.
  pub narrow-Ends :
      (f l left right : ℕ) (any : Bool) (now : ℕ)
      → Brackets stabs type lo hi addr l left right any now
      → right - l + (addr + 1 - now) < f
      → Ends f l left right any now
  unfolding narrow
  narrow-Ends zero l left right any now s enough = absurd (omega (arith, enough))
  narrow-Ends (suc f) l left right any now s enough = elim (Bool-cases (ltb l right)) [
    | inr out ↦ (l, left, right, any, now, rw (narrow, out) refl, ground (arith, out), s)
    | inl in_range ↦
        let inside : l < right = ground (arith, in_range) in
        let rest = narrow-Ends f in
        elim (Option-cases (find_back stabs type l ((l + (right - 1)) / 2 - l))) [
          | inl e ↦ round_none f l left right any now rest s enough inside e
          | inr (m, e) ↦ elim (Bool-cases (ltb ((stabs m).n_value) now)) [
            | inl lt ↦
                round_above f l left right any now rest s enough inside m e (ground (arith, lt))
            | inr not_lt ↦ elim (Bool-cases (ltb now ((stabs m).n_value))) [
              | inl gt ↦
                  round_below f l left right any now rest s enough inside m e (ground (arith, gt))
              | inr not_gt ↦
                  round_exact f l left right any now rest s enough inside m e
                    (ground (arith, not_lt, not_gt))
            ]
          ]
        ]
  ]

  pub start : lo ≤ hi → Brackets stabs type lo hi addr lo lo hi false addr
  start le = record {
    now_is = inl refl;
    from_lo = omega arith;
    to_hi = omega arith;
    below = λ i ge' lt'. absurd (omega (arith, ge', lt'));
    above = λ i ge' lt'. absurd (omega (arith, ge', lt'));
    nothing = λ _ i ge' lt'. absurd (omega (arith, ge', lt'));
    left_is = inl refl;
    right_is = inl refl;
    whole = λ _. refl;
    from_right = le;
  }
