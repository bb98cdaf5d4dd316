-- ===== src/Printfmt/Number.antt =====
-- `printnum` prints a numeral, and `strtol` reads it back.
use native.Mathlib.Nat.{
  pow-suc, div-add-mod', le-div_iff_mul-le, div-lt_iff_lt-mul, mod-eq_of_lt, mod-lt,
}
use atlos.Base.{
  ℕ, zero, suc, ◌+◌, ◌-◌, ◌*◌, ◌/◌, ◌%◌, ◌^◌, ◌<◌, ◌≤◌, ◌≡◌, refl, some, List, [], ◌∷◌, ◌++◌, map,
  length, arith, ◌∙◌, ap, sym, ℤ, pos, negsuc, get_or, length-append, leb, Bool-cases, inl, inr,
  true, false,
}
use mathlib.Core.List.{append_assoc, map-append}
use atlos.Printfmt.{printnum, pad, hex_digits, dec, above_zero}
use atlos.Str.Number.{value}

abbrev pub replicate : ℕ → ℕ → List ℕ
replicate zero c = []
replicate (suc n) c = c ∷ replicate n c

abbrev pub digit_char : ℕ → ℕ
digit_char d = get_or hex_digits d 0

-- Digits of base `b` that make `num`, without a zero in front unless `num` is 0.
pub record Numeral (b num : ℕ) (ds : List ℕ) : Type 0 where
  pub makes : value b 0 ds ≡ num
  pub some_digit : 1 ≤ length ds
  pub no_zero : 1 ≤ num → 1 ≤ get_or ds 0 0

-- Digits below `b`.
abbrev pub Below : ℕ → List ℕ → Type 0
Below b [] = Unit
Below b (d ∷ ds) = (d < b) × Below b ds

Below-snoc : (b d : ℕ) (ds : List ℕ) → Below b ds → d < b → Below b (ds ++ d ∷ [])
Below-snoc b d [] h lt = (lt, tt)
Below-snoc b d (x ∷ ds) h lt = (h.0, Below-snoc b d ds h.1 lt)

value-snoc : (b acc d : ℕ) (ds : List ℕ) → value b acc (ds ++ d ∷ []) ≡ value b acc ds * b + d
value-snoc b acc d [] = refl
value-snoc b acc d (x ∷ ds) = value-snoc b (acc * b + x) d ds

get_or-append : (ds es : List ℕ) → 1 ≤ length ds → get_or (ds ++ es) 0 0 ≡ get_or ds 0 0
get_or-append [] es h = absurd (omega arith)
get_or-append (x ∷ ds) es h = refl

Numeral-snoc :
    (b num : ℕ) (ds : List ℕ)
    → 2 ≤ b
    → b ≤ num
    → Numeral b (num / b) ds
    → Numeral b num (ds ++ num % b ∷ [])
Numeral-snoc b num ds base big n = record {
  makes = value-snoc b 0 (num % b) ds ∙ rw n.makes (div-add-mod' num b);
  some_digit = omega (arith, length-append ds (num % b ∷ []));
  no_zero = λ h.
      let first = n.no_zero ((le-div_iff_mul-le (omega arith)).1 (omega arith)) in
      rw (get_or-append ds (num % b ∷ []) n.some_digit) first;
}

halves : (f num b : ℕ) → 2 ≤ b → num < 2 ^ suc f → num / b < 2 ^ f
halves f num b base small = (div-lt_iff_lt-mul (omega arith)).1 (grind (arith, pow-suc 2 f))

module _ {S : Type 0} (putch : ℕ → S → S) where
  -- `putch` of each character in turn.
  abbrev pub feed : List ℕ → S → S
  feed [] s = s
  feed (c ∷ cs) s = feed cs (putch c s)

  pub feed-append : (cs ds : List ℕ) (s : S) → feed (cs ++ ds) s ≡ feed ds (feed cs s)
  feed-append [] ds s = refl
  feed-append (c ∷ cs) ds s = feed-append cs ds (putch c s)

  pub pad-feed : (n c : ℕ) (s : S) → pad putch n c s ≡ feed (replicate n c) s
  unfolding pad
  pad-feed zero c s = refl
  pad-feed (suc n) c s = pad-feed n c (putch c s)

  above_zero-dec : (w : ℤ) → above_zero (dec w) ≡ above_zero w - 1
  above_zero-dec (pos zero) = refl
  above_zero-dec (pos (suc n)) = omega arith
  above_zero-dec (negsuc n) = refl

  printnum-single :
      (f num b : ℕ) (width : ℤ) (padc : ℕ) (s : S)
      → 2 ≤ b
      → num < b
      → (ds : List ℕ) × Numeral b num ds
        × Below b ds
        × (printnum putch (suc f) num b width padc s
            ≡ some (feed (replicate (above_zero width - length ds) padc ++ map digit_char ds) s))
  unfolding printnum
  printnum-single f num b width padc s base lt =
      let one : leb b num ≡ false = ground arith in
      let same : num % b ≡ num = mod-eq_of_lt lt in
      let pads = above_zero width - 1 in
      (
        num ∷ [],
        record { makes = omega arith; some_digit = omega arith; no_zero = λ h. h },
        (lt, tt),
        rw (printnum, one, same, above_zero-dec width, pad-feed pads padc s)
            (ap some (sym (feed-append (replicate pads padc) (digit_char num ∷ []) s))),
      )

  printnum-higher :
      (f num b : ℕ) (width : ℤ) (padc : ℕ) (s : S) (ds : List ℕ)
      → b ≤ num
      → printnum putch f (num / b) b (dec width) padc s
        ≡ some (feed (replicate (above_zero (dec width) - length ds) padc ++ map digit_char ds) s)
      → printnum putch (suc f) num b width padc s
        ≡ some (
            feed
              (replicate (above_zero width - length (ds ++ num % b ∷ [])) padc
                ++ map digit_char (ds ++ num % b ∷ []))
              s)
  unfolding printnum
  printnum-higher f num b width padc s ds le run =
      let more : leb b num ≡ true = ground arith in
      let pads : above_zero (dec width) - length ds
          ≡ above_zero width - length (ds ++ num % b ∷ []) =
        rw (above_zero-dec width) (omega (arith, length-append ds (num % b ∷ []))) in
      let front = replicate (above_zero width - length (ds ++ num % b ∷ [])) padc in
      let shape : front ++ map digit_char (ds ++ num % b ∷ [])
          ≡ (front ++ map digit_char ds) ++ digit_char (num % b) ∷ [] =
        rw (map-append digit_char ds (num % b ∷ []))
          (sym (append_assoc front (map digit_char ds) (digit_char (num % b) ∷ []))) in
      rw (printnum, more, run, pads, shape)
        (ap some (sym (feed-append (front ++ map digit_char ds) (digit_char (num % b) ∷ []) s)))

  -- For a base from 2 to 16 and a number below 2 ^ f, `printnum` ends, and has put the padding that
  -- the width leaves and then the digits of the number.
  pub printnum-Numeral :
      (f num b : ℕ) (width : ℤ) (padc : ℕ) (s : S)
      → 2 ≤ b
      → num < 2 ^ f
      → (ds : List ℕ) × Numeral b num ds
        × Below b ds
        × (printnum putch (suc f) num b width padc s
            ≡ some (feed (replicate (above_zero width - length ds) padc ++ map digit_char ds) s))
  printnum-Numeral zero num b width padc s base small =
      printnum-single zero num b width padc s base (omega arith)
  printnum-Numeral (suc f) num b width padc s base small = elim (Bool-cases (leb b num)) [
    | inl e ↦
        let le : b ≤ num = ground arith in
        let (ds, n, below, run) =
          printnum-Numeral f (num / b) b (dec width) padc s base (halves f num b base small) in
        (
          ds ++ num % b ∷ [],
          Numeral-snoc b num ds base le n,
          Below-snoc b (num % b) ds below (mod-lt num (omega arith)),
          printnum-higher (suc f) num b width padc s ds le run,
        )
    | inr e ↦ printnum-single (suc f) num b width padc s base (ground arith)
  ]
