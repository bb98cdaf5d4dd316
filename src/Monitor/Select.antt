-- ===== src/Monitor/Select.antt =====
-- The command that a line runs.
use atlos.Base.{
  ℕ, suc, ◌+◌, ◌<◌, ◌≤◌, ◌≡◌, refl, ◌≢◌, ◌⊎◌, inl, inr, Bool, true, false, Option, none, some, List,
  [], ◌∷◌, length, arith, ℤ, pos, is_zero, Bool-cases,
}
use atlos.Str.{Mem}
use atlos.Str.Text.{IsStr, IsStr-frame}
use atlos.Str.Compare.{strcmp-zero}
use atlos.Monitor.{maxargs, find_command, runcmd, parse}
use atlos.Monitor.Words.{AllWhite, line, starts, IsLine, WordsAt, parse-Parsed}

-- The names are strings in memory, apart from the bytes from `p` to `q`, and shorter than `f`.
abbrev pub NamesAt : Mem → ℕ → ℕ → ℕ → List ℕ → List (List ℕ) → Type 0
NamesAt m p q f [] [] = Unit
NamesAt m p q f [] (s ∷ ss) = ⊥
NamesAt m p q f (a ∷ as') [] = ⊥
NamesAt m p q f (a ∷ as') (s ∷ ss) =
    IsStr m a s × ((a + suc (length s) ≤ p) ⊎ (q ≤ a)) × (length s < f) × NamesAt m p q f as' ss

-- `o` is the number of the first name that is `w`, counted from `i`, or `none` if there is none.
abbrev pub Selects : List (List ℕ) → List ℕ → ℕ → Option ℕ → Type 0
Selects [] w i o = o ≡ none
Selects (s ∷ ss) w i o = ((s ≡ w) × (o ≡ some i)) ⊎ ((s ≢ w) × Selects ss w (i + 1) o)

true_ne_false : (b : Bool) → b ≡ true → b ≡ false → ⊥
true_ne_false b t f = ground arith

find-Selects :
    (f : ℕ) (m : Mem) (p q : ℕ) (names : List ℕ) (strs : List (List ℕ)) (arg : ℕ) (w : List ℕ)
    (i : ℕ)
    → NamesAt m p q f names strs
    → IsStr m arg w
    → (o : Option ℕ) × (find_command f m names arg i ≡ some o) × Selects strs w i o
unfolding find_command
find-Selects f m p q [] [] arg w i at' is = (none, refl, refl)
find-Selects f m p q [] (s ∷ ss) arg w i at' is = absurd at'
find-Selects f m p q (a ∷ as') [] arg w i at' is = absurd at'
find-Selects f m p q (a ∷ as') (s ∷ ss) arg w i at' is =
    let (d, run, same) = strcmp-zero m f s w a arg at'.0 is at'.2 in
    let (o, rest, selects) = find-Selects f m p q as' ss arg w (i + 1) at'.3 is in
    elim (Bool-cases (is_zero d)) [
      | inl z ↦ (some i, rw (find_command, run, z) refl, inl (same.0 z, refl))
      | inr nz ↦ (
        o,
        rw (find_command, run, nz) rest,
        inr (λ e. true_ne_false (is_zero d) (same.1 e) nz, selects),
      )
    ]

NamesAt-frame :
    (m g : Mem) (p q f : ℕ) (names : List ℕ) (strs : List (List ℕ))
    → ((a : ℕ) → a < p → g a ≡ m a)
    → ((a : ℕ) → q ≤ a → g a ≡ m a)
    → NamesAt m p q f names strs
    → NamesAt g p q f names strs
NamesAt-frame m g p q f [] [] before behind at' = tt
NamesAt-frame m g p q f [] (s ∷ ss) before behind at' = at'
NamesAt-frame m g p q f (a ∷ as') [] before behind at' = at'
NamesAt-frame m g p q f (a ∷ as') (s ∷ ss) before behind at' = (
  elim at'.1 [
    | inl below ↦ IsStr-frame m g s a (λ b lo hi. before b (omega arith)) at'.0
    | inr above ↦ IsStr-frame m g s a (λ b lo hi. behind b (omega arith)) at'.0
  ],
  at'.1,
  at'.2,
  NamesAt-frame m g p q f as' ss before behind at'.3,
)

-- What `runcmd` does of a command that it has found, or not.
abbrev pub outcome :
    {S : Type 0}
    → (ℕ → ℕ → List ℕ → Mem → S → ℤ × S)
    → (ℕ → Mem → S → S)
    → Option ℕ
    → ℕ
    → List ℕ
    → Mem
    → S
    → ℤ × S
outcome func unknown none arg args g s = (pos 0, unknown arg g s)
outcome func unknown (some i) arg args g s = func i (length args) args g s

module _ {S : Type 0} (func : ℕ → ℕ → List ℕ → Mem → S → ℤ × S) (unknown : ℕ → Mem → S → S) where
  runcmd-run :
      (f : ℕ) (m : Mem) (names : List ℕ) (buf : ℕ) (s : S) (g : Mem) (arg : ℕ) (args : List ℕ)
      (o : Option ℕ)
      → parse f m buf ≡ some (arg ∷ args, g)
      → find_command f g names arg 0 ≡ some o
      → runcmd func unknown f m names buf s ≡ some (outcome func unknown o arg args g s)
  unfolding runcmd
  runcmd-run f m names buf s g arg args none parsed found = rw (runcmd, parsed, found) refl
  runcmd-run f m names buf s g arg args (some i) parsed found = rw (runcmd, parsed, found) refl

-- On a line of a first word and at most 15 more, with the names of the commands in memory outside of
-- the line, and given a round more than the line and each name has bytes, `runcmd` ends. If some name
-- is the first word, the first such command is called with the starts of the other words, each of
-- which is then a string of its own; if none is, the message is printed and 0 returned.
pub runcmd-Selects :
    {S : Type 0} (func : ℕ → ℕ → List ℕ → Mem → S → ℤ × S) (unknown : ℕ → Mem → S → S)
    (b w : List ℕ) (r : List (List ℕ × List ℕ)) (end : List ℕ) (f : ℕ) (m : Mem) (p : ℕ)
    (names : List ℕ) (strs : List (List ℕ)) (s : S)
    → IsLine ((b, w) ∷ r)
    → AllWhite end
    → IsStr m p (line ((b, w) ∷ r) end)
    → length r < maxargs
    → length (line ((b, w) ∷ r) end) < f
    → NamesAt m p (p + length (line ((b, w) ∷ r) end)) f names strs
    → (g : Mem) × (o : Option ℕ) × Selects strs w 0 o
      × WordsAt g p ((b, w) ∷ r)
      × (runcmd func unknown f m names p s
          ≡ some (outcome func unknown o (p + length b) (starts (p + length b + length w) r) g s))
runcmd-Selects func unknown b w r end f m p names strs s is white h few fuel at' =
    let (g, run, done) = parse-Parsed ((b, w) ∷ r) end f m p is white h (omega (arith, few)) fuel in
    let q = p + length (line ((b, w) ∷ r) end) in
    let at'' = NamesAt-frame m g p q f names strs done.before done.behind at' in
    let (o, found, selects) =
      find-Selects f g p q names strs (p + length b) w 0 at'' done.words.0 in
    (
      g,
      o,
      selects,
      done.words,
      runcmd-run func unknown f m names p s g (p + length b) (starts (p + length b + length w) r) o
          run found,
    )
