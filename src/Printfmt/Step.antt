-- ===== src/Printfmt/Step.antt =====
-- `vprintfmt` as a machine: one step for a character of the format, in the text or inside of a
-- %-escape, and the loop over the steps. `vsnprintf` runs it on a buffer.
pub mod Items
pub mod Shown
pub mod Buffer
use atlos.Base.{
  ℕ, zero, suc, ◌+◌, ◌-◌, ◌*◌, ◌/◌, ◌%◌, ◌^◌, Bool, true, false, ◌&&◌, ◌||◌, not, Option, none,
  some, List, [], ◌∷◌, ltb, leb, ◌==◌, if◌then◌else◌, get_or, update, ℤ, pos, negsuc, minus, is_neg,
}
use atlos.Printfmt.{pad, printnum, dec, above_zero}
use atlos.Str.{Mem, strnlen}

-- The variables of an escape; `width` and `precision` are ints.
pub record Flags : Type 0 where
  pub padc : ℕ
  pub width : ℤ
  pub precision : ℤ
  pub lflag : ℕ
  pub altflag : Bool

abbrev pub no_flags : Flags
no_flags = record {
  padc = 0x20;
  width = negsuc 0;
  precision = negsuc 0;
  lflag = 0;
  altflag = false;
}

-- An int as its 32-bit word.
abbrev pub word : ℤ → ℕ
word (pos n) = n % 2 ^ 32
word (negsuc n) = 2 ^ 32 - 1 - n % 2 ^ 32

-- A 32-bit word as an int.
abbrev pub int : ℕ → ℤ
int w = if ltb w (2 ^ 31) then pos w else negsuc (2 ^ 32 - 1 - w)

-- `va_arg` of a word, and `getuint`.
abbrev pub next_arg : List ℕ → Option (ℕ × List ℕ)
next_arg [] = none
next_arg (w ∷ ap) = some (w, ap)

pub getuint : ℕ → List ℕ → Option (ℕ × List ℕ)
getuint lflag [] = none
getuint lflag (w ∷ []) = if leb 2 lflag then none else some (w, [])
getuint lflag (w ∷ v ∷ ap) = if leb 2 lflag then some (w + v * 2 ^ 32, ap) else some (w, v ∷ ap)

-- `getint`: the sign and the magnitude.
pub getint : ℕ → List ℕ → Option ((Bool × ℕ) × List ℕ)
unfolding getuint
getint lflag ap = elim (getuint lflag ap) [
  | none ↦ none
  | some (w, rest) ↦
      let half = if leb 2 lflag then 2 ^ 63 else 2 ^ 31 in
      some (if ltb w half then (false, w) else (true, 2 * half - w), rest)
]

-- `process_precision`
abbrev pub process_precision : ℤ → Flags → Flags
process_precision precision fl =
    if is_neg fl.width
    then record fl { width = precision; precision = negsuc 0 }
    else record fl { precision = precision }

-- The loop of the width field, at the digit `ch`, with `fmt` behind it.
pub width_field : ℕ → Mem → ℕ → ℕ → ℕ → Option (ℕ × ℕ)
width_field zero text ch fmt precision = none
width_field (suc f) text ch fmt precision =
    let precision' = precision * 10 + ch - 0x30 in
    let rest = width_field f text (text fmt) (fmt + 1) precision' in
    if ltb (text fmt) 0x30 || ltb 0x39 (text fmt) then some (precision', fmt) else rest

-- `for (fmt --; fmt[-1] != '%'; fmt --)`, from `fmt - 1` on.
pub back_up : ℕ → Mem → ℕ → Option ℕ
back_up zero text fmt = none
back_up (suc f) text fmt =
    let rest = back_up f text (fmt - 1) in if text (fmt - 1) == 0x25 then some fmt else rest

-- A literal of the program, at the address 1.
abbrev pub literal : List ℕ → Mem
literal cs a = if a == 0 then 0 else get_or cs (a - 1) 0

-- `error_string`, with `none` for NULL and beyond its end.
pub error_string : ℕ → Option (List ℕ)
error_string err =
    if err == 1
    then some (
        117 ∷ 110 ∷ 115 ∷ 112 ∷ 101 ∷ 99 ∷ 105 ∷ 102 ∷ 105 ∷ 101 ∷ 100 ∷ 32 ∷ 101 ∷ 114 ∷ 114 ∷ 111
        ∷ 114 ∷ [])
    else if err == 2
    then some (98 ∷ 97 ∷ 100 ∷ 32 ∷ 112 ∷ 114 ∷ 111 ∷ 99 ∷ 101 ∷ 115 ∷ 115 ∷ [])
    else if err == 3
    then some (
        105 ∷ 110 ∷ 118 ∷ 97 ∷ 108 ∷ 105 ∷ 100 ∷ 32 ∷ 112 ∷ 97 ∷ 114 ∷ 97 ∷ 109 ∷ 101 ∷ 116 ∷ 101
        ∷ 114 ∷ [])
    else if err == 4
    then some (111 ∷ 117 ∷ 116 ∷ 32 ∷ 111 ∷ 102 ∷ 32 ∷ 109 ∷ 101 ∷ 109 ∷ 111 ∷ 114 ∷ 121 ∷ [])
    else if err == 5
    then some (
        111 ∷ 117 ∷ 116 ∷ 32 ∷ 111 ∷ 102 ∷ 32 ∷ 112 ∷ 114 ∷ 111 ∷ 99 ∷ 101 ∷ 115 ∷ 115 ∷ 101 ∷ 115
        ∷ [])
    else if err == 6
    then some (
        115 ∷ 101 ∷ 103 ∷ 109 ∷ 101 ∷ 110 ∷ 116 ∷ 97 ∷ 116 ∷ 105 ∷ 111 ∷ 110 ∷ 32 ∷ 102 ∷ 97 ∷ 117
        ∷ 108 ∷ 116 ∷ [])
    else none

-- "(null)", "%s" and "error %d".
abbrev pub null_text : List ℕ
null_text = 40 ∷ 110 ∷ 117 ∷ 108 ∷ 108 ∷ 41 ∷ []

abbrev pub string_format : List ℕ
string_format = 37 ∷ 115 ∷ []

abbrev pub error_format : List ℕ
error_format = 101 ∷ 114 ∷ 114 ∷ 111 ∷ 114 ∷ 32 ∷ 37 ∷ 100 ∷ []

-- The state of the machine: in the text, or inside of an escape; the rest of the format, the
-- arguments and the state of the output.
pub record Machine (S : Type 0) : Type 0 where
  pub escape : Option Flags
  pub fmt : ℕ
  pub ap : List ℕ
  pub out : S

-- `fault` is an argument that is missing, or fuel that is used up.
pub data Outcome (S : Type 0) : Type 0 where
  fault : Outcome S
  stop : S → Outcome S
  go : Machine S → Outcome S

module _ {S : Type 0} (putch : ℕ → S → S) where
  -- The loop that puts the characters of a string, with what is left of the width.
  pub put_string : ℕ → Mem → ℕ → Flags → S → Option (ℤ × S)
  put_string zero m p fl s = none
  put_string (suc f) m p fl s =
      let ch = m p in
      let shown = if fl.altflag && (ltb ch 0x20 || ltb 0x7e ch) then 0x3f else ch in
      let fewer = if is_neg fl.precision then fl.precision else dec fl.precision in
      let rest =
        put_string f m (p + 1) (record fl { width = dec fl.width; precision = fewer })
          (putch shown s) in
      if not (ch == 0) && (is_neg fl.precision || not (is_neg fewer))
      then rest
      else some (fl.width, s)

  -- `case 's'`, from the pointer on.
  pub put_string_arg : ℕ → Mem → ℕ → Flags → S → Option S
  unfolding put_string
  put_string_arg f m p fl s =
      let m' = if p == 0 then literal null_text else m in
      let p' = if p == 0 then 1 else p in
      let padded = not (above_zero fl.width == 0) && not (fl.padc == 0x2d) in
      let left = minus (above_zero fl.width) (strnlen m' p' (word fl.precision)) in
      let width' = if padded then (if is_neg left then left else pos 0) else fl.width in
      let s' = if padded then pad putch (above_zero left) fl.padc s else s in
      elim (put_string f m' p' (record fl { width = width' }) s') [
        | none ↦ none
        | some (w, s'') ↦ some (pad putch (above_zero w) 0x20 s'')
      ]

  -- The ways in which a branch of the `switch` goes on: in the escape, or behind it.
  abbrev pub resume : Flags → ℕ → List ℕ → S → Outcome S
  resume fl fmt ap out = Outcome.go (record { escape = some fl; fmt = fmt; ap = ap; out = out })

  abbrev pub leave : ℕ → List ℕ → S → Outcome S
  leave fmt ap out = Outcome.go (record { escape = none; fmt = fmt; ap = ap; out = out })

  abbrev pub leave_if : ℕ → List ℕ → Option S → Outcome S
  leave_if fmt ap none = Outcome.fault
  leave_if fmt ap (some out) = leave fmt ap out

  -- `number:`, with fuel for the 64 digits that a number has at most.
  pub number : Flags → ℕ → ℕ → ℕ → List ℕ → S → Outcome S
  number fl base num fmt ap out = leave_if fmt ap (printnum putch 65 num base fl.width fl.padc out)

  pub unsigned : Flags → ℕ → ℕ → List ℕ → S → Outcome S
  unfolding number
  unsigned fl base fmt ap out = elim (getuint fl.lflag ap) [
    | none ↦ Outcome.fault
    | some (num, ap') ↦ number fl base num fmt ap' out
  ]

  pub signed : Flags → ℕ → List ℕ → S → Outcome S
  unfolding number
  signed fl fmt ap out = elim (getint fl.lflag ap) [
    | none ↦ Outcome.fault
    | some ((neg, num), ap') ↦ number fl 10 num fmt ap' (if neg then putch 0x2d out else out)
  ]

  -- `case 'e'`; `sub` is `printfmt` on a format at the address 1.
  pub error_message : (Mem → Mem → List ℕ → S → Option S) → Mem → ℕ → List ℕ → S → Outcome S
  error_message sub m fmt [] out = Outcome.fault
  error_message sub m fmt (w ∷ ap) out =
      let err : ℕ = elim (int w) [ pos n ↦ n | negsuc n ↦ suc n ] in
      leave_if fmt ap (elim (error_string err) [
        | none ↦ sub (literal error_format) m (err ∷ []) out
        | some p ↦ sub (literal string_format) (literal p) (1 ∷ []) out
      ])

  -- The `switch` at the character `ch`, with `fmt` behind it.
  pub switch :
      (Mem → Mem → List ℕ → S → Option S) → ℕ → Mem → Mem → Flags → ℕ → ℕ → List ℕ → S → Outcome S
  unfolding unsigned signed number error_message
  switch sub f text m fl ch fmt ap out =
      if ch == 0x2d
      then resume (record fl { padc = 0x2d }) fmt ap out
      else if ch == 0x30
      then resume (record fl { padc = 0x30 }) fmt ap out
      else if leb 0x31 ch && leb ch 0x39
      then elim (width_field f text ch fmt 0) [
        | none ↦ Outcome.fault
        | some (precision, fmt') ↦ resume (process_precision (pos precision) fl) fmt' ap out
      ]
      else if ch == 0x2a
      then elim (next_arg ap) [
        | none ↦ Outcome.fault
        | some (w, ap') ↦ resume (process_precision (int w) fl) fmt ap' out
      ]
      else if ch == 0x2e
      then resume (if is_neg fl.width then record fl { width = pos 0 } else fl) fmt ap out
      else if ch == 0x23
      then resume (record fl { altflag = true }) fmt ap out
      else if ch == 0x6c
      then resume (record fl { lflag = fl.lflag + 1 }) fmt ap out
      else if ch == 0x63
      then elim (next_arg ap) [ none ↦ Outcome.fault | some (w, ap') ↦ leave fmt ap' (putch w out) ]
      else if ch == 0x65
      then error_message sub m fmt ap out
      else if ch == 0x73
      then elim (next_arg ap) [
        | none ↦ Outcome.fault
        | some (p, ap') ↦ leave_if fmt ap' (put_string_arg f m p fl out)
      ]
      else if ch == 0x64
      then signed fl fmt ap out
      else if ch == 0x75
      then unsigned fl 10 fmt ap out
      else if ch == 0x6f
      then unsigned fl 8 fmt ap out
      else if ch == 0x70
      then elim (next_arg ap) [
        | none ↦ Outcome.fault
        | some (p, ap') ↦ number fl 16 p fmt ap' (putch 0x78 (putch 0x30 out))
      ]
      else if ch == 0x78
      then unsigned fl 16 fmt ap out
      else if ch == 0x25
      then leave fmt ap (putch ch out)
      else elim (back_up f text (fmt - 1)) [
        | none ↦ Outcome.fault
        | some fmt' ↦ leave fmt' ap (putch 0x25 out)
      ]

  pub step : (Mem → Mem → List ℕ → S → Option S) → ℕ → Mem → Mem → Machine S → Outcome S
  unfolding switch
  step sub f text m s =
      let ch = text s.fmt in
      elim s.escape [
        | none ↦
            if ch == 0x25
            then resume no_flags (s.fmt + 1) s.ap s.out
            else if ch == 0
            then Outcome.stop s.out
            else leave (s.fmt + 1) s.ap (putch ch s.out)
        | some fl ↦ switch sub f text m fl ch (s.fmt + 1) s.ap s.out
      ]

  pub run_format : ℕ → Mem → Mem → Machine S → Option S
  run_format zero text m s = none
  run_format (suc f) text m s =
      let sub : Mem → Mem → List ℕ → S → Option S = λ text' m' ap out.
        run_format f text' m' (record { escape = none; fmt = 1; ap = ap; out = out }) in
      elim (step sub f text m s) [
        | Outcome.fault ↦ none
        | Outcome.stop out ↦ some out
        | Outcome.go s' ↦ run_format f text m s'
      ]

  pub vprintfmt : ℕ → Mem → Mem → ℕ → List ℕ → S → Option S
  unfolding run_format
  vprintfmt f text m fmt ap out =
      run_format f text m (record { escape = none; fmt = fmt; ap = ap; out = out })

-- `struct sprintbuf`, with the memory that it writes to.
pub record SprintBuf : Type 0 where
  pub mem : Mem
  pub buf : ℕ
  pub ebuf : ℕ
  pub cnt : ℕ

pub sprintputch : ℕ → SprintBuf → SprintBuf
sprintputch ch b =
    if ltb b.buf b.ebuf
    then record {
      mem = update b.mem b.buf (ch % 2 ^ 8);
      buf = b.buf + 1;
      ebuf = b.ebuf;
      cnt = (b.cnt + 1) % 2 ^ 32;
    }
    else record b { cnt = (b.cnt + 1) % 2 ^ 32 }

-- `vsnprintf`: `none` is a fault of `vprintfmt`; the result is -E_INVAL or the count, as a word.
pub vsnprintf : ℕ → Mem → Mem → Mem → ℕ → ℕ → ℕ → List ℕ → Option (ℤ × Mem)
unfolding vprintfmt
vsnprintf f mem text m str size fmt ap =
    let b : SprintBuf = record { mem = mem; buf = str; ebuf = str + size - 1; cnt = 0 } in
    if (str == 0) || ltb (str + size - 1) str
    then some (negsuc 2, mem)
    else elim (vprintfmt sprintputch f text m fmt ap b) [
      | none ↦ none
      | some b' ↦ some (int b'.cnt, update b'.mem b'.buf 0)
    ]
