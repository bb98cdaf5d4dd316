-- ===== src/Kdebug/Tests.antt =====
-- A file at 100 with two functions, at 100 and 140, and the next file at 200; the address is 110.
use atlos.Base.{ℕ, ◌≡◌, refl, some, arith, ◌==◌, if◌then◌else◌, pos, ltb, inl, inr}
use atlos.Str.{Mem, strfind}
use atlos.Kdebug.Search.{Stab, typed}
use atlos.Kdebug.Search.Rounds.{IsSorted}
use atlos.Kdebug.Search.Found.{IsFound}
use atlos.Kdebug.{debuginfo_eip, n_so, n_fun, n_sline}
use atlos.Kdebug.Info.{located, debuginfo_eip-IsFound}

abbrev stab : ℕ → ℕ → ℕ → ℕ → Stab
stab strx type desc value = record {
  n_strx = strx;
  n_type = type;
  n_other = 0;
  n_desc = desc;
  n_value = value;
}

abbrev table : ℕ → Stab
table i =
    if i == 1
    then stab 1 0x64 0 100
    else if i == 2
    then stab 5 0x24 0 100
    else if i == 3
    then stab 0 0x44 10 0
    else if i == 4
    then stab 0 0x44 11 8
    else if i == 5
    then stab 9 0x24 0 140
    else if i == 6
    then stab 0 0x44 20 0
    else if i == 7
    then stab 12 0x64 0 200
    else stab 0 0 0 0

abbrev text : Mem
text p = if p == 1007 then 0x3a else if ltb p 1015 then 0x61 else 0

so-IsSorted : IsSorted table n_so 0 8 110
unfolding typed
so-IsSorted = record {
  rising = λ i j ge lt end a b. ground (arith, a, b, lt);
  gap = λ i ge lt a. ground (arith, a);
  small = omega arith;
}

fun-IsSorted : IsSorted table n_fun 1 7 110
unfolding typed
fun-IsSorted = record {
  rising = λ i j ge lt end a b. ground (arith, a, b, lt);
  gap = λ i ge lt a. ground (arith, a);
  small = omega arith;
}

line-IsSorted : IsSorted table n_sline 2 5 10
unfolding typed
line-IsSorted = record {
  rising = λ i j ge lt end a b. ground (arith, a, b, lt, end, ge);
  gap = λ i ge lt a. ground (arith, a);
  small = omega arith;
}

so-IsFound : IsFound table n_so 0 8 110 1 7
unfolding typed
so-IsFound = (
  omega arith,
  omega arith,
  omega arith,
  refl,
  omega arith,
  (λ i a b. ground (arith, a, b)),
  inr refl,
  (λ i a b t. ground (arith, a, b, t)),
)

fun-IsFound : IsFound table n_fun 1 7 110 2 5
unfolding typed
fun-IsFound = (
  omega arith,
  omega arith,
  omega arith,
  refl,
  omega arith,
  (λ i a b. ground (arith, a, b)),
  inr refl,
  (λ i a b t. ground (arith, a, b, t)),
)

line-IsFound : IsFound table n_sline 2 5 10 4 5
unfolding typed
line-IsFound = (
  omega arith,
  omega arith,
  omega arith,
  refl,
  omega arith,
  (λ i a b. ground (arith, a, b)),
  inl refl,
  (λ i a b t. ground (arith, a, b, t)),
)

name_found : strfind 12 text 1005 0x3a ≡ some 1007
unfolding strfind
name_found = refl

debuginfo_eip-IsFound_example :
    debuginfo_eip text 500 table 8 1000 1020 12 110
    ≡ some (pos 0, located text 500 table 8 1000 1020 12 110 1 7 2 5 4 5 1007)
debuginfo_eip-IsFound_example =
    debuginfo_eip-IsFound text 500 table 8 1000 1020 12 110 1 7 2 5 4 5 1007 (omega arith) refl
      so-IsSorted fun-IsSorted line-IsSorted (omega arith) so-IsFound fun-IsFound line-IsFound
      (omega arith) name_found (omega arith)
