-- ===== src/Printfmt.antt =====
-- libs/printfmt.c: formatted output. `putch` with its `putdat` is a function on a state `S`. The
-- format is read from `text` and string arguments from `m`; what `putch` writes is apart from both.
-- A `va_list` is the list of its 32-bit words, of which a long long takes two, the low one first.
pub mod Number
pub mod Reread
pub mod Step
mod Tests
use atlos.Base.{
  ℕ, zero, suc, ◌+◌, ◌-◌, ◌*◌, ◌/◌, ◌%◌, ◌^◌, Bool, true, false, ◌&&◌, ◌||◌, not, Option, none,
  some, List, [], ◌∷◌, ltb, leb, ◌==◌, if◌then◌else◌, get_or, ℤ, pos, negsuc, minus, is_neg,
}
use atlos.Str.{Mem, strnlen}

-- `--width`.
abbrev pub dec : ℤ → ℤ
dec (pos zero) = negsuc 0
dec (pos (suc n)) = pos n
dec (negsuc n) = negsuc (suc n)

-- The rounds of `for (; width > 0; width --)`.
abbrev pub above_zero : ℤ → ℕ
above_zero (pos n) = n
above_zero (negsuc n) = 0

abbrev pub hex_digits : List ℕ
hex_digits = 48 ∷ 49 ∷ 50 ∷ 51 ∷ 52 ∷ 53 ∷ 54 ∷ 55 ∷ 56 ∷ 57 ∷ 97 ∷ 98 ∷ 99 ∷ 100 ∷ 101 ∷ 102 ∷ []

module _ {S : Type 0} (putch : ℕ → S → S) where
  pub pad : ℕ → ℕ → S → S
  pad zero c s = s
  pad (suc n) c s = pad n c (putch c s)

  -- `printnum`, with as much fuel as `num` has digits.
  pub printnum : ℕ → ℕ → ℕ → ℤ → ℕ → S → Option S
  printnum zero num base width padc s = none
  printnum (suc f) num base width padc s =
      let higher = printnum f (num / base) base (dec width) padc s in
      elim (if leb base num then higher else some (pad (above_zero (dec width)) padc s)) [
        | none ↦ none
        | some s' ↦ some (putch (get_or hex_digits (num % base) 0) s')
      ]
