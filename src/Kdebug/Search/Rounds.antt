-- ===== src/Kdebug/Search/Rounds.antt =====
-- What the rounds of `stab_binsearch` keep in a sorted table.
use atlos.Base.{
  ℕ, ◌+◌, ◌^◌, ◌<◌, ◌≤◌, ◌≡◌, ◌≢◌, ◌⊎◌, inl, inr, refl, Bool, true, false, none, some, ltb, arith,
  Bool-cases, ℕ-eq_cases,
}
use atlos.Kdebug.Search.{Stab, typed, find_back}
use atlos.Kdebug.Search.Bracket.{Bare, find_back-some, find_back-none}

pub no_lt : (a b : ℕ) → b ≤ a → ltb a b ≡ false
no_lt a b le = ground (arith, le)

-- Between `lo` and `hi`, the values of the stabs of the type do not fall, and none is `addr + 1`.
pub record IsSorted (stabs : ℕ → Stab) (type lo hi addr : ℕ) : Type 0 where
  pub rising :
      (i j : ℕ)
      → lo ≤ i
      → i < j
      → j < hi
      → typed stabs type i ≡ true
      → typed stabs type j ≡ true
      → (stabs i).n_value ≤ (stabs j).n_value
  pub gap : (i : ℕ) → lo ≤ i → i < hi → typed stabs type i ≡ true → (stabs i).n_value ≢ addr + 1
  pub small : addr + 1 < 2 ^ 32

-- What the rounds keep: on the left of `l` the values are `addr` at most, from `right` on above.
pub record Brackets (stabs : ℕ → Stab) (type lo hi addr l left right : ℕ) (any : Bool) (now : ℕ)
    : Type 0 where
  pub now_is : (now ≡ addr) ⊎ (now ≡ addr + 1)
  pub from_lo : lo ≤ l
  pub to_hi : right ≤ hi
  pub below : (i : ℕ) → lo ≤ i → i < l → typed stabs type i ≡ true → (stabs i).n_value ≤ addr
  pub above : (i : ℕ) → right ≤ i → i < hi → typed stabs type i ≡ true → addr < (stabs i).n_value
  pub nothing : any ≡ false → (i : ℕ) → lo ≤ i → i < l → typed stabs type i ≡ false
  pub left_is :
      (left ≡ lo)
      ⊎ ((lo ≤ left) × (left < hi) × (typed stabs type left ≡ true) × ((stabs left).n_value ≤ addr))
  pub whole : any ≡ false → right ≡ hi
  pub from_right : lo ≤ right
  pub right_is : (right ≡ hi) ⊎ (typed stabs type right ≡ true)

module _ (stabs : ℕ → Stab) (type lo hi addr : ℕ) (sorted : IsSorted stabs type lo hi addr) where
  abbrev pub value : ℕ → ℕ
  value i = (stabs i).n_value

  -- Up to a stab whose value is `addr` at most, all are.
  up_to :
      (m i : ℕ)
      → m < hi
      → typed stabs type m ≡ true
      → value m ≤ addr
      → lo ≤ i
      → i ≤ m
      → typed stabs type i ≡ true
      → value i ≤ addr
  up_to m i bound hit le ge upto t = elim (ℕ-eq_cases i m) [
    | inl e ↦ rw e le
    | inr ne ↦ omega (arith, le, sorted.rising i m ge (omega (arith, ne, upto)) bound t hit)
  ]

  -- The rounds: none in the range, one with a smaller value, one with a greater, and the same.
  module _ (l left right : ℕ) (any : Bool) (now n : ℕ)
      (s : Brackets stabs type lo hi addr l left right any now) (inside : l + n < right) where
    pub step_none :
        find_back stabs type l n ≡ none
        → Brackets stabs type lo hi addr (l + n + 1) left right any now
    step_none e = record {
      now_is = s.now_is;
      to_hi = s.to_hi;
      above = s.above;
      left_is = s.left_is;
      right_is = s.right_is;
      whole = s.whole;
      from_right = s.from_right;
      from_lo = omega (arith, s.from_lo);
      below = λ i ge lt t. elim (Bool-cases (ltb i l)) [
        | inl b ↦ s.below i ge (ground (arith, b)) t
        | inr b ↦ absurd (
            ground
              (arith, t, find_back-none stabs type l n i e (ground (arith, b)) (omega (arith, lt))))
      ];
      nothing = λ no i ge lt. elim (Bool-cases (ltb i l)) [
        | inl b ↦ s.nothing no i ge (ground (arith, b))
        | inr b ↦ find_back-none stabs type l n i e (ground (arith, b)) (omega (arith, lt))
      ];
    }

    module _ (m : ℕ) (e : find_back stabs type l n ≡ some m) where
      hit : (l ≤ m) × (m ≤ l + n) × (typed stabs type m ≡ true) × Bare stabs type m (l + n + 1)
      hit = find_back-some stabs type l n m e

      pub step_above : value m < now → Brackets stabs type lo hi addr (l + n + 1) m right true now
      step_above lt =
          let low : value m ≤ addr = ground (arith, lt, s.now_is) in
          record {
            now_is = s.now_is;
            from_lo = omega (arith, s.from_lo);
            to_hi = s.to_hi;
            below = λ i ge lt' t. elim (Bool-cases (ltb m i)) [
              | inl b ↦ absurd (ground (arith, t, hit.3 i (ground (arith, b)) lt'))
              | inr b ↦
                  up_to m i (omega (arith, hit.1, inside, s.to_hi)) hit.2 low ge (ground (arith, b))
                    t
            ];
            above = s.above;
            nothing = λ no. absurd (ground (arith, no));
            left_is = inr (
              omega (arith, s.from_lo, hit.0),
              omega (arith, hit.1, inside, s.to_hi),
              hit.2,
              low,
            );
            right_is = s.right_is;
            whole = λ no. absurd (ground (arith, no));
            from_right = s.from_right;
          }

      pub step_below : now < value m → Brackets stabs type lo hi addr l left m true now
      step_below gt =
          let bound : m < hi = omega (arith, hit.1, inside, s.to_hi) in
          let ge_lo : lo ≤ m = omega (arith, s.from_lo, hit.0) in
          let high : addr < value m =
            ground (arith, gt, s.now_is, sorted.gap m ge_lo bound hit.2) in
          record {
            now_is = s.now_is;
            from_lo = s.from_lo;
            to_hi = omega (arith, bound);
            below = s.below;
            above = λ i ge lt t. elim (ℕ-eq_cases i m) [
              | inl at ↦ rw at high
              | inr ne ↦
                  omega (arith, high, sorted.rising m i ge_lo (omega (arith, ne, ge)) lt hit.2 t)
            ];
            nothing = λ no. absurd (ground (arith, no));
            left_is = s.left_is;
            right_is = inr hit.2;
            whole = λ no. absurd (ground (arith, no));
            from_right = ge_lo;
          }

      pub step_exact :
          value m ≡ now → (now ≡ addr) × Brackets stabs type lo hi addr m m right true (addr + 1)
      step_exact eq =
          let bound : m < hi = omega (arith, hit.1, inside, s.to_hi) in
          let ge_lo : lo ≤ m = omega (arith, s.from_lo, hit.0) in
          let at : now ≡ addr = ground (arith, eq, s.now_is, sorted.gap m ge_lo bound hit.2) in
          let low : value m ≤ addr = omega (arith, eq, at) in
          (
            at,
            record {
              now_is = inr refl;
              from_lo = ge_lo;
              to_hi = s.to_hi;
              below = λ i ge lt t. up_to m i bound hit.2 low ge (omega (arith, lt)) t;
              above = s.above;
              nothing = λ no. absurd (ground (arith, no));
              left_is = inr (ge_lo, bound, hit.2, low);
              right_is = s.right_is;
              whole = λ no. absurd (ground (arith, no));
              from_right = s.from_right;
            },
          )
