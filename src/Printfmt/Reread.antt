-- ===== src/Printfmt/Reread.antt =====
-- `strtol` reads back what `printnum` prints.
use atlos.Base.{
  ℕ, suc, ◌+◌, ◌-◌, ◌<◌, ◌≤◌, ◌^◌, ◌≡◌, ◌≢◌, refl, true, Bool, some, none, List, [], ◌∷◌, ◌++◌, map,
  length, arith, ◌∙◌, ap, sym, pos, holds_below, below_holds, ◌==◌, inr,
}
use mathlib.Core.List.{append_assoc, append-nil}
use atlos.Printfmt.{printnum}
use atlos.Printfmt.Number.{Numeral, Below, digit_char, printnum-Numeral, feed}
use atlos.Str.{Mem, strtol, digit}
use atlos.Str.Text.{IsStr}
use atlos.Str.Number.{IsNumeral, IsSign, strtol-value, Sign, Radix}

reads : ℕ → Bool
reads d = elim (digit (digit_char d)) [ none ↦ Bool.false | some e ↦ e == d ]

reads_table : holds_below 16 reads ≡ true
unfolding holds_below reads digit
reads_table = refl

digit-digit_char : (d : ℕ) → d < 16 → digit (digit_char d) ≡ some d
unfolding reads
digit-digit_char d lt =
    let r : reads d ≡ true = below_holds 16 reads d reads_table lt in ground (arith, r)

digit_zero : digit 0 ≡ none
unfolding digit
digit_zero = refl

module _ (m : Mem) (b : ℕ) (small : b ≤ 16) where
  string-IsNumeral :
      (ds : List ℕ) (s : ℕ) → Below b ds → IsStr m s (map digit_char ds) → IsNumeral m s b ds
  string-IsNumeral [] s below str = rw (str, digit_zero) tt
  string-IsNumeral (d ∷ ds) s below str = (
    rw str.0 (digit-digit_char d (omega arith)),
    below.0,
    string-IsNumeral ds (s + 1) below.1 str.2,
  )

  no_sign_at : (d s : ℕ) → digit (m s) ≡ some d → IsSign m s Sign.no_sign
  unfolding digit
  no_sign_at d s e = (λ q. ground arith, λ q. ground arith, λ q. ground arith, λ q. ground arith)

  no_x : (ds : List ℕ) (s : ℕ) → Below b ds → IsStr m s (map digit_char ds) → m s ≢ 0x78
  unfolding digit
  no_x [] s below str q = ground arith
  no_x (d ∷ ds) s below str q =
      let e = digit-digit_char d (omega arith) in
      let x : digit_char d ≡ 0x78 = sym str.0 ∙ q in
      let bad : digit 0x78 ≡ some d = rw x at e in ground arith

  strtol-string :
      (f num s : ℕ) (ds : List ℕ)
      → 2 ≤ b
      → Numeral b num ds
      → Below b ds
      → num < 2 ^ 31
      → length ds < f
      → IsStr m s (map digit_char ds)
      → strtol f m s b ≡ some (num, s + length ds)
  strtol-string f num s [] base n below lt fuel str = absurd (omega (arith, n.some_digit))
  strtol-string f num s (d ∷ ds) base n below lt fuel str =
      let numeral = string-IsNumeral (d ∷ ds) s below str in
      let z : s + 0 ≡ s = omega arith in
      let run =
        strtol-value m f s 0 Sign.no_sign b b Radix.given (d ∷ ds) tt
          (rw z (no_sign_at d s (rw str.0 (digit-digit_char d (omega arith)))))
          (rw z
            (rw z (λ q. omega (arith, q, base), refl, inr (inr (no_x ds (s + 1) below.1 str.2)))))
          (rw z (rw z (rw z numeral))) (omega arith) (rw n.makes lt) (omega arith) fuel in
      ground (arith, run, n.makes)

-- Output as the list of its characters.
abbrev pub put : ℕ → List ℕ → List ℕ
put c cs = cs ++ c ∷ []

feed-put : (xs cs : List ℕ) → feed put xs cs ≡ cs ++ xs
feed-put [] cs = sym (append-nil cs)
feed-put (x ∷ xs) cs = feed-put xs (cs ++ x ∷ []) ∙ append_assoc cs (x ∷ []) xs

length-map : (ds : List ℕ) → length (map digit_char ds) ≡ length ds
length-map [] = refl
length-map (d ∷ ds) = ap suc (length-map ds)

-- For a base from 2 to 16 and a number below 2^31 and 2 ^ f, `printnum` with no width, given `f`
-- rounds and one, ends, and wherever memory holds what it printed as a string, `strtol` with that
-- base and a round more than there are digits reads the number back, up to the end of the string.
pub strtol-printnum :
    (b num f : ℕ)
    → 2 ≤ b
    → b ≤ 16
    → num < 2 ^ 31
    → num < 2 ^ f
    → (out : List ℕ) × (printnum put (suc f) num b (pos 0) 32 [] ≡ some out)
      × ((g : ℕ) (m : Mem) (s : ℕ)
          → IsStr m s out
          → length out < g
          → strtol g m s b ≡ some (num, s + length out))
strtol-printnum b num f base small lt lt' =
    let (ds, n, below, run) = printnum-Numeral put f num b (pos 0) 32 [] base lt' in
    let no_pad : 0 - length ds ≡ 0 = omega arith in
    (
      map digit_char ds,
      run ∙ ap some (rw no_pad (feed-put (map digit_char ds) [])),
      λ g m s str fuel.
          rw (length-map ds)
            (strtol-string m b small g num s ds base n below lt (rw (length-map ds) at fuel) str),
    )
