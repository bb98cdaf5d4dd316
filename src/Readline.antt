-- ===== src/Readline.antt =====
-- kern/libs/readline.c, the line editor of the kernel monitor, and `cputs` and `vcprintf` of kern/libs/stdio.c.
-- What `getchar` returns comes from a list, where `none` is a negative value; the output of
-- `cputchar` is a list, the last character first.
mod Tests
pub mod Edit
pub mod Output
use atlos.Printfmt.Step.{vprintfmt}
use atlos.Str.{Mem}
use atlos.Base.{
  ℕ, zero, suc, ◌+◌, ◌-◌, ◌%◌, ◌^◌, Bool, true, false, ◌&&◌, ◌||◌, Option, none, some, List, [],
  ◌∷◌, ltb, leb, ◌==◌, if◌then◌else◌, update,
}

abbrev pub bufsize : ℕ
bufsize = 1024

pub record Line : Type 0 where
  pub buf : ℕ → ℕ
  pub i : ℕ
  pub out : List ℕ

pub data Outcome : Type 0 where
  null : Outcome
  line : Outcome
  -- The input is used up: `getchar` waits for more.
  waits : Outcome

-- The first two branches of the loop's body that keep a character or take one back; any other
-- character is dropped.
pub edit_char : ℕ → Line → Line
edit_char c s =
    if leb 0x20 c && ltb s.i (bufsize - 1)
    then record { buf = update s.buf s.i (c % 2 ^ 8); i = s.i + 1; out = c ∷ s.out }
    else if (c == 8) && ltb 0 s.i
    then record s { i = s.i - 1; out = c ∷ s.out }
    else s

pub readline_loop : List (Option ℕ) → Line → Outcome × Line
unfolding edit_char
readline_loop [] s = (Outcome.waits, s)
readline_loop (none ∷ input) s = (Outcome.null, s)
readline_loop (some c ∷ input) s =
    let rest = readline_loop input (edit_char c s) in
    if leb 0x20 c && ltb s.i (bufsize - 1)
    then rest
    else if (c == 8) && ltb 0 s.i
    then rest
    else if (c == 10) || (c == 13)
    then (Outcome.line, record s { buf = update s.buf s.i 0; out = c ∷ s.out })
    else rest

-- `readline` after the prompt is written: `buf` is a global array, which keeps its content.
pub readline : (ℕ → ℕ) → List (Option ℕ) → Outcome × Line
unfolding readline_loop
readline buf input = readline_loop input (record { buf = buf; i = 0; out = [] })

-- `cputch`: the output and the counter, an int.
pub cputch : ℕ → List ℕ × ℕ → List ℕ × ℕ
cputch c (out, cnt) = (c ∷ out, (cnt + 1) % 2 ^ 32)

-- The loop of `cputs` over the string at `str`, on fuel.
pub cputs_loop : ℕ → (ℕ → ℕ) → ℕ → List ℕ × ℕ → Option (List ℕ × ℕ)
unfolding cputch
cputs_loop zero m str s = none
cputs_loop (suc f) m str s =
    let rest = cputs_loop f m (str + 1) (cputch (m str) s) in if m str == 0 then some s else rest

pub cputs : ℕ → (ℕ → ℕ) → ℕ → List ℕ → Option (List ℕ × ℕ)
unfolding cputs_loop cputch
cputs f m str out = elim (cputs_loop f m str (out, 0)) [ none ↦ none | some s ↦ some (cputch 10 s) ]

-- `vcprintf`, and `cprintf` with its arguments as a list: the count and the output.
pub vcprintf : ℕ → Mem → Mem → ℕ → List ℕ → List ℕ → Option (List ℕ × ℕ)
unfolding cputch
vcprintf f text m fmt ap out = vprintfmt cputch f text m fmt ap (out, 0)

-- `getchar` over a console that yields characters, 0 while none waits; `none` is no character in
-- so many polls.
pub getchar : {D : Type 0} → (D → ℕ × D) → ℕ → D → Option (ℕ × D)
getchar cons_getc zero d = none
getchar cons_getc (suc f) d =
    let (c, d') = cons_getc d in
    let rest = getchar cons_getc f d' in if c == 0 then rest else some (c, d')
