-- ===== src/Console/Keyboard/Typing.antt =====
-- Typing on the keyboard: the scan codes of a text come out of the console as that text.
use atlos.Base.{
  ℕ, zero, suc, ◌+◌, ◌<◌, ◌≡◌, ◌≢◌, refl, Bool, true, false, ◌&&◌, ◌||◌, not, Option, none, some,
  List, [], ◌∷◌, ◌++◌, arith, leb, ltb, ◌==◌, if◌then◌else◌, bit_and, ap, holds_below, below_holds,
  ==_iff,
}
use atlos.Console.Feed.{typed}
use atlos.Console.Keyboard.{kbd_code, reboots, normalmap, shiftmap, swap_case}

-- The characters that a run of scan codes gives, and the modifiers behind it.
abbrev pub chars : ℕ → List ℕ → List ℕ
chars s [] = []
chars s (x ∷ xs) = (kbd_code s x).0 ∷ chars (kbd_code s x).1 xs

abbrev pub shift_after : ℕ → List ℕ → ℕ
shift_after s [] = s
shift_after s (x ∷ xs) = shift_after (kbd_code s x).1 xs

-- No Control-Alt-Delete in it.
abbrev pub is_quiet : ℕ → List ℕ → Bool
is_quiet s [] = true
is_quiet s (x ∷ xs) =
    not (reboots (kbd_code s x).1 (kbd_code s x).0) && is_quiet (kbd_code s x).1 xs

-- The first key from `i` on that gives `c`, among the next `n`.
abbrev find_key : (ℕ → ℕ) → ℕ → ℕ → ℕ → Option ℕ
find_key table c zero i = none
find_key table c (suc n) i =
    let rest = find_key table c n (i + 1) in if table i == c then some i else rest

-- A key pressed and released, for a capital with the left Shift held down.
abbrev pub keys_of : ℕ → List ℕ
keys_of c = elim (find_key normalmap c 88 0) [
  | some i ↦ i ∷ (i + 0x80) ∷ []
  | none ↦ elim (find_key shiftmap c 88 0) [
    | some i ↦ 0x2a ∷ i ∷ (i + 0x80) ∷ 0xaa ∷ []
    | none ↦ []
  ]
]

abbrev pub keys_of_text : List ℕ → List ℕ
keys_of_text [] = []
keys_of_text (c ∷ cs) = keys_of c ++ keys_of_text cs

-- The printable characters of ASCII, the backspace, the tab and the line feed.
abbrev pub is_typable : ℕ → Bool
is_typable c = (leb 32 c && ltb c 127) || (c == 8) || (c == 9) || (c == 10)

abbrev pub AllTypable : List ℕ → Type 0
AllTypable [] = Unit
AllTypable (c ∷ cs) = (is_typable c ≡ true) × AllTypable cs

-- The word `shift` with the Caps Lock alone, or with nothing.
abbrev pub caps_word : Bool → ℕ
caps_word true = 8
caps_word false = 0

abbrev pub shown : Bool → List ℕ → List ℕ
shown caps [] = []
shown caps (c ∷ cs) = (if caps then swap_case c else c) ∷ shown caps cs

is_single : List ℕ → ℕ → Bool
is_single [] c = false
is_single (x ∷ []) c = x == c
is_single (x ∷ y ∷ r) c = false

is_single_eq : (xs : List ℕ) (c : ℕ) → is_single xs c ≡ true → xs ≡ c ∷ []
unfolding is_single
is_single_eq [] c q = ground arith
is_single_eq (x ∷ []) c q = ground arith
is_single_eq (x ∷ y ∷ r) c q = ground arith

types_well : Bool → ℕ → Bool
unfolding is_single kbd_code
types_well caps c =
    let s = caps_word caps in
    not (is_typable c)
    || (is_single (typed (chars s (keys_of c))) (if caps then swap_case c else c)
        && (shift_after s (keys_of c) == s)
        && is_quiet s (keys_of c))

all_type_well : (caps : Bool) → holds_below 127 (types_well caps) ≡ true
unfolding types_well holds_below kbd_code is_single
all_type_well true = refl
all_type_well false = refl

all_three :
    (o a b c : Bool)
    → (not o || (a && b && c)) ≡ true
    → o ≡ true
    → (a ≡ true) × (b ≡ true) × (c ≡ true)
all_three o a b c q ok = (ground arith, ground arith, ground arith)

-- One key.
key-lem :
    (caps : Bool) (c : ℕ)
    → is_typable c ≡ true
    → (typed (chars (caps_word caps) (keys_of c)) ≡ (if caps then swap_case c else c) ∷ [])
      × (shift_after (caps_word caps) (keys_of c) ≡ caps_word caps)
      × (is_quiet (caps_word caps) (keys_of c) ≡ true)
unfolding types_well
key-lem caps c ok =
    let small : c < 127 = ground arith in
    let q = below_holds 127 (types_well caps) c (all_type_well caps) small in
    let s = caps_word caps in
    let shows = is_single (typed (chars s (keys_of c))) (if caps then swap_case c else c) in
    let (single, same, quiet) =
      all_three (is_typable c) shows (shift_after s (keys_of c) == s) (is_quiet s (keys_of c)) q
        ok in
    (
      is_single_eq (typed (chars s (keys_of c))) (if caps then swap_case c else c) single,
      (==_iff (shift_after s (keys_of c)) s).0 same,
      quiet,
    )

pub chars-append :
    (s : ℕ) (xs ys : List ℕ) → chars s (xs ++ ys) ≡ chars s xs ++ chars (shift_after s xs) ys
chars-append s [] ys = refl
chars-append s (x ∷ xs) ys = ap (λ t. (kbd_code s x).0 ∷ t) (chars-append (kbd_code s x).1 xs ys)

shift-append :
    (s : ℕ) (xs ys : List ℕ) → shift_after s (xs ++ ys) ≡ shift_after (shift_after s xs) ys
shift-append s [] ys = refl
shift-append s (x ∷ xs) ys = shift-append (kbd_code s x).1 xs ys

quiet-append :
    (s : ℕ) (xs ys : List ℕ)
    → is_quiet s (xs ++ ys) ≡ (is_quiet s xs && is_quiet (shift_after s xs) ys)
quiet-append s [] ys = refl
quiet-append s (x ∷ xs) ys = ground (arith, quiet-append (kbd_code s x).1 xs ys)

typed-append : (xs ys : List ℕ) → typed (xs ++ ys) ≡ typed xs ++ typed ys
typed-append [] ys = refl
typed-append (x ∷ xs) ys = ground (arith, typed-append xs ys)

-- A text.
pub text-lem :
    (caps : Bool) (cs : List ℕ)
    → AllTypable cs
    → (typed (chars (caps_word caps) (keys_of_text cs)) ≡ shown caps cs)
      × (shift_after (caps_word caps) (keys_of_text cs) ≡ caps_word caps)
      × (is_quiet (caps_word caps) (keys_of_text cs) ≡ true)
text-lem caps [] ok = (refl, refl, refl)
text-lem caps (c ∷ cs) ok =
    let s = caps_word caps in
    let k = key-lem caps c ok.0 in
    let t = text-lem caps cs ok.1 in
    let xs = keys_of c in
    let ys = keys_of_text cs in
    (
      rw
          (
            chars-append s xs ys,
            typed-append (chars s xs) (chars (shift_after s xs) ys),
            k.0,
            k.1,
            t.0,
          )
          refl,
      rw (shift-append s xs ys, k.1) t.1,
      rw (quiet-append s xs ys, k.1, k.2) t.2,
    )

module _ {D : Type 0} (inb : ℕ → D → ℕ × D) (outb : ℕ → ℕ → D → D) (cprintf : List ℕ → D → D) where
  -- From the state `d` on, the controller has the scan codes `xs` and then, in the state `e`, none.
  abbrev pub Feeds : D → List ℕ → D → Type 0
  Feeds d [] e = (st : ℕ) × (inb 0x64 d ≡ (st, e)) × (bit_and st 1 ≡ 0)
  Feeds d (x ∷ xs) e =
      (st : ℕ) × (d₁ : D) × (d₂ : D) × (inb 0x64 d ≡ (st, d₁))
      × (bit_and st 1 ≢ 0)
      × (inb 0x60 d₁ ≡ (x, d₂))
      × Feeds d₂ xs e

  -- A port read that leaves the word `shift` alone.
  abbrev lifted : ℕ → ℕ × D → ℕ × (ℕ × D)
  lifted port (s, d) = let (v, d') = inb port d in (v, (s, d'))
