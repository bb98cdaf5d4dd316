-- ===== src/Readline/Output.antt =====
-- `cputs` and `vcprintf`: what they write and what they return.
use atlos.Base.{ℕ, zero, suc, ◌+◌, ◌%◌, ◌^◌, ◌<◌, ◌≡◌, refl, some, List, [], ◌∷◌, length, arith}
use atlos.Readline.{cputch, cputs, cputs_loop, vcprintf}
use atlos.Readline.Edit.{reverse_onto}
use atlos.Printfmt.Number.{feed}
use atlos.Printfmt.Step.Items.{Item, format, args, AllItems, ShowsAll, longest}
use atlos.Printfmt.Step.Shown.{vprintfmt-ShowsAll}
use atlos.Str.{Mem}
use atlos.Str.Text.{IsStr}

feed-cputch :
    (xs out : List ℕ) (cnt : ℕ)
    → cnt < 2 ^ 32
    → feed cputch xs (out, cnt) ≡ (reverse_onto xs out, (cnt + length xs) % 2 ^ 32)
unfolding cputch
feed-cputch [] out cnt small = ground arith
feed-cputch (x ∷ xs) out cnt small = ground (arith, feed-cputch xs (x ∷ out) ((cnt + 1) % 2 ^ 32))

cputs_loop-feed :
    (f : ℕ) (m : Mem) (xs : List ℕ) (s : ℕ) (st : List ℕ × ℕ)
    → IsStr m s xs
    → length xs < f
    → cputs_loop f m s st ≡ some (feed cputch xs st)
unfolding cputs_loop
cputs_loop-feed zero m xs s st h enough = absurd (omega arith)
cputs_loop-feed (suc f) m [] s st h enough = ground arith
cputs_loop-feed (suc f) m (x ∷ xs) s st h enough =
    let ih = cputs_loop-feed f m xs (s + 1) (cputch x st) h.2 (omega arith) in
    ground (arith, ih, h.0)

-- Given a round more than the string has bytes, `cputs` ends, has written the string and a line
-- feed, and returns how many characters that is.
pub cputs_lem :
    (f : ℕ) (m : Mem) (xs : List ℕ) (s : ℕ) (out : List ℕ)
    → IsStr m s xs
    → length xs < f
    → cputs f m s out ≡ some (10 ∷ reverse_onto xs out, (length xs + 1) % 2 ^ 32)
unfolding cputs cputch
cputs_lem f m xs s out h enough =
    rw (cputs, cputs_loop-feed f m xs s (out, 0) h enough, feed-cputch xs out 0 (omega arith))
      (ground arith)

-- On a format of well-formed items with their arguments, and given two rounds more than the format
-- and its longest string argument together have bytes, `vcprintf` ends, has written what the items
-- show, and returns how many characters that is.
pub vcprintf-ShowsAll :
    (text m : Mem) (is : List Item) (f fmt : ℕ) (out : List ℕ)
    → AllItems m is
    → IsStr text fmt (format is)
    → length (format is) + longest is + 1 < f
    → (xs : List ℕ) × ShowsAll is xs
      × (vcprintf f text m fmt (args is) out ≡ some (reverse_onto xs out, length xs % 2 ^ 32))
unfolding vcprintf
vcprintf-ShowsAll text m is f fmt out ok h enough =
    let (xs, shows, run) = vprintfmt-ShowsAll cputch text m is f fmt (out, 0) ok h enough in
    let count : (0 + length xs) % 2 ^ 32 ≡ length xs % 2 ^ 32 = omega arith in
    (xs, shows, rw (vcprintf, run, feed-cputch xs out 0 (omega arith), count) refl)
