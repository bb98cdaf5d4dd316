-- ===== src/Console/Keyboard.antt =====
-- kern/driver/console.c: the keyboard. The scan codes come from the ports of the controller; `shift`
-- is the static word that `kbd_proc_data` keeps, with a bit for each modifier and lock.
pub mod Typing
mod Tests
use atlos.Base.{
  ℕ, zero, suc, ◌+◌, ◌-◌, ◌%◌, ◌^◌, Bool, true, false, ◌&&◌, Option, none, some, List, [], ◌∷◌, leb,
  ltb, ◌==◌, length, get_or, if◌then◌else◌, bit_and, bit_or, bit_xor,
}
use atlos.Console.{Cons, cons_intr}

-- `SHIFT`, `CTL`, `ALT`, `CAPSLOCK`, `NUMLOCK`, `SCROLLLOCK` and `E0ESC` are the bits 0 to 6.
abbrev pub shiftcode : ℕ → ℕ
shiftcode code =
    if (code == 0x1d)
    then 2
    else if code == 0x2a
    then 1
    else if code == 0x36
    then 1
    else if code == 0x38
    then 4
    else if code == 0x9d
    then 2
    else if code == 0xb8
    then 4
    else 0

abbrev pub togglecode : ℕ → ℕ
togglecode code =
    if code == 0x3a then 8 else if code == 0x45 then 16 else if code == 0x46 then 32 else 0

abbrev pub find_entry : List (ℕ × ℕ) → ℕ → ℕ
find_entry [] code = 0
find_entry ((d, c) ∷ rest) code = if d == code then c else find_entry rest code

-- An entry of an array of 256 bytes: the places given in order, then those given by their index.
abbrev pub entry : List ℕ → List (ℕ × ℕ) → ℕ → ℕ
entry plain extended code =
    if ltb code (length plain) then get_or plain code 0 else find_entry extended code

-- The characters of the keys by scan code, without a modifier,
abbrev pub normalmap_plain : List ℕ
normalmap_plain =
    0 ∷ 27 ∷ 49 ∷ 50 ∷ 51 ∷ 52 ∷ 53 ∷ 54 ∷ 55 ∷ 56 ∷ 57 ∷ 48 ∷ 45 ∷ 61 ∷ 8 ∷ 9 ∷ 113 ∷ 119 ∷ 101
    ∷ 114 ∷ 116 ∷ 121 ∷ 117 ∷ 105 ∷ 111 ∷ 112 ∷ 91 ∷ 93 ∷ 10 ∷ 0 ∷ 97 ∷ 115 ∷ 100 ∷ 102 ∷ 103 ∷ 104
    ∷ 106 ∷ 107 ∷ 108 ∷ 59 ∷ 39 ∷ 96 ∷ 0 ∷ 92 ∷ 122 ∷ 120 ∷ 99 ∷ 118 ∷ 98 ∷ 110 ∷ 109 ∷ 44 ∷ 46 ∷ 47
    ∷ 0 ∷ 42 ∷ 0 ∷ 32 ∷ 0 ∷ 0 ∷ 0 ∷ 0 ∷ 0 ∷ 0 ∷ 0 ∷ 0 ∷ 0 ∷ 0 ∷ 0 ∷ 0 ∷ 0 ∷ 55 ∷ 56 ∷ 57 ∷ 45 ∷ 52
    ∷ 53 ∷ 54 ∷ 43 ∷ 49 ∷ 50 ∷ 51 ∷ 48 ∷ 46 ∷ 0 ∷ 0 ∷ 0 ∷ 0 ∷ []

abbrev pub normalmap_extended : List (ℕ × ℕ)
normalmap_extended =
    (0xc7, 224)
    ∷ (0x9c, 10)
    ∷ (0xb5, 47)
    ∷ (0xc8, 226)
    ∷ (0xc9, 230)
    ∷ (0xcb, 228)
    ∷ (0xcd, 229)
    ∷ (0xcf, 225)
    ∷ (0xd0, 227)
    ∷ (0xd1, 231)
    ∷ (0xd2, 232)
    ∷ (0xd3, 233)
    ∷ []

abbrev pub normalmap : ℕ → ℕ
normalmap = entry normalmap_plain normalmap_extended

-- with Shift,
abbrev pub shiftmap_plain : List ℕ
shiftmap_plain =
    0 ∷ 27 ∷ 33 ∷ 64 ∷ 35 ∷ 36 ∷ 37 ∷ 94 ∷ 38 ∷ 42 ∷ 40 ∷ 41 ∷ 95 ∷ 43 ∷ 8 ∷ 9 ∷ 81 ∷ 87 ∷ 69 ∷ 82
    ∷ 84 ∷ 89 ∷ 85 ∷ 73 ∷ 79 ∷ 80 ∷ 123 ∷ 125 ∷ 10 ∷ 0 ∷ 65 ∷ 83 ∷ 68 ∷ 70 ∷ 71 ∷ 72 ∷ 74 ∷ 75 ∷ 76
    ∷ 58 ∷ 34 ∷ 126 ∷ 0 ∷ 124 ∷ 90 ∷ 88 ∷ 67 ∷ 86 ∷ 66 ∷ 78 ∷ 77 ∷ 60 ∷ 62 ∷ 63 ∷ 0 ∷ 42 ∷ 0 ∷ 32
    ∷ 0 ∷ 0 ∷ 0 ∷ 0 ∷ 0 ∷ 0 ∷ 0 ∷ 0 ∷ 0 ∷ 0 ∷ 0 ∷ 0 ∷ 0 ∷ 55 ∷ 56 ∷ 57 ∷ 45 ∷ 52 ∷ 53 ∷ 54 ∷ 43 ∷ 49
    ∷ 50 ∷ 51 ∷ 48 ∷ 46 ∷ 0 ∷ 0 ∷ 0 ∷ 0 ∷ []

abbrev pub shiftmap_extended : List (ℕ × ℕ)
shiftmap_extended =
    (0xc7, 224)
    ∷ (0x9c, 10)
    ∷ (0xb5, 47)
    ∷ (0xc8, 226)
    ∷ (0xc9, 230)
    ∷ (0xcb, 228)
    ∷ (0xcd, 229)
    ∷ (0xcf, 225)
    ∷ (0xd0, 227)
    ∷ (0xd1, 231)
    ∷ (0xd2, 232)
    ∷ (0xd3, 233)
    ∷ []

abbrev pub shiftmap : ℕ → ℕ
shiftmap = entry shiftmap_plain shiftmap_extended

-- and with Control.
abbrev pub ctlmap_plain : List ℕ
ctlmap_plain =
    0 ∷ 0 ∷ 0 ∷ 0 ∷ 0 ∷ 0 ∷ 0 ∷ 0 ∷ 0 ∷ 0 ∷ 0 ∷ 0 ∷ 0 ∷ 0 ∷ 0 ∷ 0 ∷ 17 ∷ 23 ∷ 5 ∷ 18 ∷ 20 ∷ 25 ∷ 21
    ∷ 9 ∷ 15 ∷ 16 ∷ 0 ∷ 0 ∷ 13 ∷ 0 ∷ 1 ∷ 19 ∷ 4 ∷ 6 ∷ 7 ∷ 8 ∷ 10 ∷ 11 ∷ 12 ∷ 0 ∷ 0 ∷ 0 ∷ 0 ∷ 28 ∷ 26
    ∷ 24 ∷ 3 ∷ 22 ∷ 2 ∷ 14 ∷ 13 ∷ 0 ∷ 0 ∷ 239 ∷ 0 ∷ 0 ∷ []

abbrev pub ctlmap_extended : List (ℕ × ℕ)
ctlmap_extended =
    (0x97, 224)
    ∷ (0xb5, 239)
    ∷ (0xc8, 226)
    ∷ (0xc9, 230)
    ∷ (0xcb, 228)
    ∷ (0xcd, 229)
    ∷ (0xcf, 225)
    ∷ (0xd0, 227)
    ∷ (0xd1, 231)
    ∷ (0xd2, 232)
    ∷ (0xd3, 233)
    ∷ []

abbrev pub ctlmap : ℕ → ℕ
ctlmap = entry ctlmap_plain ctlmap_extended

-- `charcode[shift & (CTL | SHIFT)][code]`.
abbrev pub charcode : ℕ → ℕ → ℕ
charcode modifiers code =
    if modifiers == 0 then normalmap code else if modifiers == 1 then shiftmap code else ctlmap code

-- The change of case under `CAPSLOCK`.
abbrev pub swap_case : ℕ → ℕ
swap_case c = if leb 97 c && leb c 122 then c - 32 else if leb 65 c && leb c 90 then c + 32 else c

abbrev pub not_zero : ℕ → Bool
not_zero zero = false
not_zero (suc n) = true

-- `shift & ~mask`: `shift` has seven bits.
abbrev pub clear : ℕ → ℕ → ℕ
clear shift mask = bit_and shift (bit_xor 0xff mask)

-- `kbd_proc_data` for a scan code: the character, or 0, and the new `shift`.
unfoldable pub kbd_code : ℕ → ℕ → ℕ × ℕ
kbd_code shift code =
    let escaped = not_zero (bit_and shift 64) in
    let code' = if escaped then bit_or code 0x80 else code in
    let shift₁ = if escaped then clear shift 64 else shift in
    let shift₂ = bit_xor (bit_or shift₁ (shiftcode code')) (togglecode code') in
    let c = charcode (bit_and shift₂ 3) code' in
    if code == 0xe0
    then (0, bit_or shift 64)
    else if not_zero (bit_and code 0x80)
    then (0, clear shift (bit_or (shiftcode (if escaped then code else bit_and code 0x7f)) 64))
    else (if not_zero (bit_and shift₂ 8) then swap_case c else c, shift₂)

-- Control-Alt-Delete.
abbrev pub reboots : ℕ → ℕ → Bool
reboots shift c = (bit_and shift 6 == 6) && (c == 0xe9)

abbrev rebooting : List ℕ
rebooting = 82 ∷ 101 ∷ 98 ∷ 111 ∷ 111 ∷ 116 ∷ 105 ∷ 110 ∷ 103 ∷ 33 ∷ 10 ∷ []

-- The port instructions and `cprintf` are parameters.
module _ {D : Type 0} (inb : ℕ → D → ℕ × D) (outb : ℕ → ℕ → D → D) (cprintf : List ℕ → D → D) where
  -- `kbd_proc_data`, where `none` is -1.
  pub kbd_proc_data : ℕ × D → Option ℕ × (ℕ × D)
  unfolding kbd_code
  kbd_proc_data (shift, d) =
      let (status, d₁) = inb 0x64 d in
      let (code, d₂) = inb 0x60 d₁ in
      let (c, shift') = kbd_code shift code in
      let d₃ = if reboots shift' c then outb 0x92 0x3 (cprintf rebooting d₂) else d₂ in
      if bit_and status 0x01 == 0 then (none, (shift, d₁)) else (some c, (shift', d₃))

  pub kbd_intr : ℕ → ℕ × D → Cons → Option ((ℕ × D) × Cons)
  unfolding kbd_proc_data
  kbd_intr f d cons = cons_intr kbd_proc_data f d cons
