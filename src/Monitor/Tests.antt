-- ===== src/Monitor/Tests.antt =====
-- A run of the monitor on the line " go  x" and a line feed.
use atlos.Base.{
  ℕ, ◌-◌, ◌≡◌, refl, Option, some, List, [], ◌∷◌, arith, ltb, get_or, if◌then◌else◌, ℤ, pos, inr,
}
use atlos.Str.{Mem}
use atlos.Monitor.{runcmd}
use atlos.Monitor.Words.{WordsAt}
use atlos.Monitor.Select.{Selects, outcome, runcmd-Selects}

-- The line at 10, and the names "help" and "go" at 100 and 105.
abbrev memory : Mem
memory a =
    if ltb a 18
    then get_or (32 ∷ 103 ∷ 111 ∷ 32 ∷ 32 ∷ 120 ∷ 10 ∷ 0 ∷ []) (a - 10) 0
    else get_or (104 ∷ 101 ∷ 108 ∷ 112 ∷ 0 ∷ 103 ∷ 111 ∷ 0 ∷ []) (a - 100) 0

abbrev help : List ℕ
help = 104 ∷ 101 ∷ 108 ∷ 112 ∷ []

abbrev go : List ℕ
go = 103 ∷ 111 ∷ []

abbrev func : ℕ → ℕ → List ℕ → Mem → List ℕ → ℤ × List ℕ
func i argc args m s = (pos i, args)

abbrev unknown : ℕ → Mem → List ℕ → List ℕ
unknown arg m s = arg ∷ s

runcmd-Selects_example :
    (g : Mem) × (o : Option ℕ) × Selects (help ∷ go ∷ []) go 0 o
    × WordsAt g 10 ((32 ∷ [], go) ∷ (32 ∷ 32 ∷ [], 120 ∷ []) ∷ [])
    × (runcmd func unknown 8 memory (100 ∷ 105 ∷ []) 10 []
        ≡ some (outcome func unknown o 11 (15 ∷ []) g []))
runcmd-Selects_example =
    runcmd-Selects func unknown (32 ∷ []) go ((32 ∷ 32 ∷ [], 120 ∷ []) ∷ []) (10 ∷ []) 8 memory 10
      (100 ∷ 105 ∷ []) (help ∷ go ∷ []) []
      (
        (refl, tt),
        (omega arith, refl, (omega arith, refl, tt)),
        omega arith,
        omega arith,
        ((refl, (refl, tt)), (omega arith, refl, tt), omega arith, tt, tt),
      )
      (refl, tt)
      (
        refl,
        omega arith,
        (
          refl,
          omega arith,
          (
            refl,
            omega arith,
            (
              refl,
              omega arith,
              (refl, omega arith, (refl, omega arith, (refl, omega arith, refl))),
            ),
          ),
        ),
      )
      (omega arith) (omega arith)
      (
        (refl, omega arith, (refl, omega arith, (refl, omega arith, (refl, omega arith, refl)))),
        inr (omega arith),
        omega arith,
        ((refl, omega arith, (refl, omega arith, refl)), inr (omega arith), omega arith, tt),
      )
