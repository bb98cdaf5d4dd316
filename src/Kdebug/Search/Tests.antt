-- ===== src/Kdebug/Search/Tests.antt =====
-- A table with a header and three functions, of the type 0x24, at 100, 140 and 200.
use atlos.Base.{ℕ, ◌<◌, ◌≤◌, ◌≡◌, refl, true, some, arith, ◌==◌, if◌then◌else◌, pos}
use atlos.Kdebug.Search.{Stab, typed, stab_binsearch, narrow, find_back, region, rightmost}
use atlos.Kdebug.Search.Rounds.{IsSorted}
use atlos.Kdebug.Search.Found.{IsFound, stab_binsearch-IsFound}
use atlos.Kdebug.Search.Missed.{missed, stab_binsearch-misses}

abbrev stab : ℕ → ℕ → Stab
stab type value = record { n_strx = 0; n_type = type; n_other = 0; n_desc = 0; n_value = value }

abbrev table : ℕ → Stab
table i =
    if i == 1
    then stab 0x24 100
    else if i == 3
    then stab 0x24 140
    else if i == 4
    then stab 0x24 200
    else stab 0x44 0

table-IsSorted : IsSorted table 0x24 0 6 150
unfolding typed
table-IsSorted = record {
  rising = λ i j ge lt end a b. ground (arith, a, b, lt);
  gap = λ i ge lt a. ground (arith, a);
  small = omega arith;
}

table-IsSorted_from_1 : IsSorted table 0x24 1 6 50
unfolding typed
table-IsSorted_from_1 = record {
  rising = λ i j ge lt end a b. ground (arith, a, b, lt);
  gap = λ i ge lt a. ground (arith, a);
  small = omega arith;
}

stab_binsearch-IsFound_example :
    (q end : ℕ) × (stab_binsearch table 0x24 8 0 6 150 ≡ some (pos q, end))
    × IsFound table 0x24 0 6 150 q end
unfolding typed
stab_binsearch-IsFound_example =
    stab_binsearch-IsFound table 0x24 0 6 150 table-IsSorted 3 (omega arith) (omega arith) refl
      (omega arith) 8 (omega arith)

stab_binsearch-misses_example :
    (end : ℕ) × (1 ≤ end)
    × (end < 6)
    × (typed table 0x24 end ≡ true)
    × (stab_binsearch table 0x24 7 1 6 50 ≡ some (missed 1 end, end))
unfolding typed
stab_binsearch-misses_example =
    stab_binsearch-misses table 0x24 1 6 50 table-IsSorted_from_1 1 (omega arith) (omega arith) refl
      (λ i ge lt a. ground (arith, a)) 7 (omega arith)

-- Two functions of one byte each, at 5 and 6: for the address 5 the search finds the second one.
abbrev close : ℕ → Stab
close i = if i == 0 then stab 0x24 5 else if i == 1 then stab 0x24 6 else stab 0x44 0

stab_binsearch-next_run : stab_binsearch close 0x24 8 0 2 5 ≡ some (pos 1, 2)
unfolding stab_binsearch narrow find_back typed region rightmost
stab_binsearch-next_run = refl
