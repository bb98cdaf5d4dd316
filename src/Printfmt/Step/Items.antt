-- ===== src/Printfmt/Step/Items.antt =====
-- What `vprintfmt` puts for a format made of plain characters and conversions.
use atlos.Base.{
  ℕ, zero, suc, ◌+◌, ◌-◌, ◌^◌, ◌<◌, ◌≤◌, ◌≡◌, ◌≢◌, refl, Bool, true, false, Option, none, some,
  List, [], ◌∷◌, ◌++◌, map, length, max, arith, ap, leb, if◌then◌else◌,
}
use atlos.Printfmt.Number.{Numeral, digit_char, replicate}
use atlos.Printfmt.Step.{Flags, no_flags, Machine, Outcome, step, switch, run_format}
use atlos.Str.{Mem}
use atlos.Str.Text.{IsStr}

pub data Conv : Type 0 where
  signed_decimal : Conv
  decimal : Conv
  octal : Conv
  hex : Conv

-- A plain character; `%%`; `%c`; `%s`; and a number with the zero flag or not, a width from 1 to 9
-- or none, as 0, a conversion and its argument.
pub data Item : Type 0 where
  plain : ℕ → Item
  percent : Item
  chr : ℕ → Item
  str : ℕ → List ℕ → Item
  num : Bool → ℕ → Conv → ℕ → Item

abbrev pub conv_char : Conv → ℕ
conv_char Conv.signed_decimal = 0x64
conv_char Conv.decimal = 0x75
conv_char Conv.octal = 0x6f
conv_char Conv.hex = 0x78

abbrev pub conv_base : Conv → ℕ
conv_base Conv.signed_decimal = 10
conv_base Conv.decimal = 10
conv_base Conv.octal = 8
conv_base Conv.hex = 16

abbrev pub is_minus : Conv → ℕ → Bool
is_minus Conv.signed_decimal a = leb (2 ^ 31) a
is_minus c a = false

abbrev pub magnitude : Conv → ℕ → ℕ
magnitude c a = if is_minus c a then 2 ^ 32 - a else a

-- The text of an item in the format.
abbrev pub zero_flag : Bool → List ℕ → List ℕ
zero_flag true cs = 0x30 ∷ cs
zero_flag false cs = cs

abbrev pub width_digit : ℕ → List ℕ → List ℕ
width_digit zero cs = cs
width_digit (suc w) cs = (0x31 + w) ∷ cs

-- The text of an item in the format, before `rest`.
abbrev pub format_item : Item → List ℕ → List ℕ
format_item (Item.plain c) rest = c ∷ rest
format_item Item.percent rest = 0x25 ∷ 0x25 ∷ rest
format_item (Item.chr a) rest = 0x25 ∷ 0x63 ∷ rest
format_item (Item.str p xs) rest = 0x25 ∷ 0x73 ∷ rest
format_item (Item.num z w c a) rest = 0x25 ∷ zero_flag z (width_digit w (conv_char c ∷ rest))

abbrev pub format : List Item → List ℕ
format [] = []
format (i ∷ is) = format_item i (format is)

-- Its argument, before `rest`.
abbrev pub item_arg : Item → List ℕ → List ℕ
item_arg (Item.plain c) rest = rest
item_arg Item.percent rest = rest
item_arg (Item.chr a) rest = a ∷ rest
item_arg (Item.str p xs) rest = p ∷ rest
item_arg (Item.num z w c a) rest = a ∷ rest

abbrev pub args : List Item → List ℕ
args [] = []
args (i ∷ is) = item_arg i (args is)

-- A plain character is no `%`, a string stands in memory, and a number is a word.
abbrev pub IsItem : Mem → Item → Type 0
IsItem m (Item.plain c) = (c ≢ 0) × (c ≢ 0x25)
IsItem m Item.percent = Unit
IsItem m (Item.chr a) = Unit
IsItem m (Item.str p xs) = (p ≢ 0) × IsStr m p xs
IsItem m (Item.num z w c a) = (w ≤ 9) × (a < 2 ^ 32)

abbrev pub AllItems : Mem → List Item → Type 0
AllItems m [] = Unit
AllItems m (i ∷ is) = IsItem m i × AllItems m is

-- What is put for an item: for a number a minus, the padding up to the width, and the digits.
abbrev pub Shows : Item → List ℕ → Type 0
Shows (Item.plain c) xs = xs ≡ c ∷ []
Shows Item.percent xs = xs ≡ 0x25 ∷ []
Shows (Item.chr a) xs = xs ≡ a ∷ []
Shows (Item.str p ys) xs = xs ≡ ys
Shows (Item.num z w c a) xs =
    (ds : List ℕ) × Numeral (conv_base c) (magnitude c a) ds
    × (xs
        ≡ (if is_minus c a then 0x2d ∷ [] else [])
          ++ (replicate (w - length ds) (if z then 0x30 else 0x20) ++ map digit_char ds))

abbrev pub ShowsAll : List Item → List ℕ → Type 0
ShowsAll [] xs = xs ≡ []
ShowsAll (i ∷ is) xs = (ys : List ℕ) × (zs : List ℕ) × Shows i ys × ShowsAll is zs × (xs ≡ ys ++ zs)

-- The longest string among the items.
abbrev pub longest : List Item → ℕ
longest [] = 0
longest (Item.str p xs ∷ is) = max (length xs) (longest is)
longest (i ∷ is) = longest is

module _ {S : Type 0} where
  -- The machine in the text and in an escape.
  abbrev pub in_text : ℕ → List ℕ → S → Machine S
  in_text fmt ap out = record { escape = none; fmt = fmt; ap = ap; out = out }

  abbrev pub in_escape : Flags → ℕ → List ℕ → S → Machine S
  in_escape fl fmt ap out = record { escape = some fl; fmt = fmt; ap = ap; out = out }

module _ {S : Type 0} (putch : ℕ → S → S) (text m : Mem) where
  run_step :
      (f : ℕ) (s s' : Machine S)
      → ((sub : Mem → Mem → List ℕ → S → Option S) → step putch sub f text m s ≡ Outcome.go s')
      → run_format putch (suc f) text m s ≡ run_format putch f text m s'
  unfolding run_format
  run_step f s s' h = rw (run_format, h _) refl

  pub run_plain :
      (f c fmt : ℕ) (ap : List ℕ) (out : S)
      → text fmt ≡ c
      → c ≢ 0
      → c ≢ 0x25
      → run_format putch (suc f) text m (in_text fmt ap out)
        ≡ run_format putch f text m (in_text (fmt + 1) ap (putch c out))
  unfolding step
  run_plain f c fmt ap out e h k =
      run_step f (in_text fmt ap out) (in_text (fmt + 1) ap (putch c out))
        (λ sub. ground (arith, e))

  pub run_percent :
      (f fmt : ℕ) (ap : List ℕ) (out : S)
      → text fmt ≡ 0x25
      → run_format putch (suc f) text m (in_text fmt ap out)
        ≡ run_format putch f text m (in_escape no_flags (fmt + 1) ap out)
  unfolding step
  run_percent f fmt ap out e =
      run_step f (in_text fmt ap out) (in_escape no_flags (fmt + 1) ap out)
        (λ sub. rw (step, e) refl)

  -- A step inside of an escape, at a given character.
  pub run_switch :
      (f c fmt : ℕ) (fl : Flags) (ap : List ℕ) (out : S) (s' : Machine S)
      → text fmt ≡ c
      → ((sub : Mem → Mem → List ℕ → S → Option S)
          → switch putch sub f text m fl c (fmt + 1) ap out ≡ Outcome.go s')
      → run_format putch (suc f) text m (in_escape fl fmt ap out) ≡ run_format putch f text m s'
  unfolding step
  run_switch f c fmt fl ap out s' e h =
      run_step f (in_escape fl fmt ap out) s' (λ sub. rw (step, e) (h sub))
