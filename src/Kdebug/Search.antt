-- ===== src/Kdebug/Search.antt =====
-- `stab_binsearch` of kern/debug/kdebug.c. The right end of a region, an int from -1 on, is given by
-- the index behind it, one more. The indexes are those of a table in memory, so that sums of two of
-- them do not wrap.
pub mod Bracket
pub mod Rounds
pub mod Ends
pub mod Found
pub mod Missed
mod Tests
use atlos.Base.{
  ℕ, zero, suc, ◌+◌, ◌-◌, ◌/◌, ◌%◌, ◌^◌, Bool, true, false, Option, none, some, ltb, ◌==◌,
  if◌then◌else◌, ℤ, pos, negsuc,
}

pub record Stab : Type 0 where
  pub n_strx : ℕ
  pub n_type : ℕ
  pub n_other : ℕ
  pub n_desc : ℕ
  pub n_value : ℕ

module _ (stabs : ℕ → Stab) (type : ℕ) where
  unfoldable pub typed : ℕ → Bool
  typed i = (stabs i).n_type == type

  -- The loop that moves `m` down from `l + n` to a stab of the type; `none` says that `m` gets below
  -- `l`.
  pub find_back : ℕ → ℕ → Option ℕ
  find_back l zero = if typed l then some l else none
  find_back l (suc n) =
      let rest = find_back l n in if typed (l + suc n) then some (l + suc n) else rest

  -- The loop of the search. `right` is the end of the region and of the range that is left; the
  -- result is `any_matches` with the region. The outer `none` says that the rounds have run out.
  pub narrow : ℕ → ℕ → ℕ → ℕ → Bool → ℕ → Option (Bool × (ℕ × ℕ))
  unfolding find_back
  narrow zero l left right any addr = none
  narrow (suc f) l left right any addr =
      let true_m = (l + (right - 1)) / 2 in
      if ltb l right
      then elim (find_back l (true_m - l)) [
        | none ↦ narrow f (true_m + 1) left right any addr
        | some m ↦
            let value = (stabs m).n_value in
            let above = narrow f (true_m + 1) m right true addr in
            let below = narrow f l left m true addr in
            let exact = narrow f m m right true ((addr + 1) % 2 ^ 32) in
            if ltb value addr then above else if ltb addr value then below else exact
      ]
      else some (any, (left, right))

  -- The last loop, from `left + n` down to `left`.
  pub rightmost : ℕ → ℕ → ℕ
  rightmost left zero = left
  rightmost left (suc n) = if typed (left + suc n) then left + suc n else rightmost left n

  -- The end of `stab_binsearch`: the region.
  pub region : Bool → ℕ → ℕ → ℤ × ℕ
  unfolding rightmost
  region false left right = (pos left, left)
  region true left right =
      if ltb (left + 1) right
      then (pos (rightmost left (right - 1 - left)), right)
      else (if right == 0 then negsuc 0 else pos (right - 1), right)

  pub stab_binsearch : ℕ → ℕ → ℕ → ℕ → Option (ℤ × ℕ)
  unfolding narrow region
  stab_binsearch f left right addr = elim (narrow f left left right false addr) [
    | none ↦ none
    | some (any, (left', right')) ↦ some (region any left' right')
  ]
