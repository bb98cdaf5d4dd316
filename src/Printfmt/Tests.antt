-- ===== src/Printfmt/Tests.antt =====
-- Concrete formats.
use atlos.Base.{ℕ, ◌+◌, ◌<◌, ◌≡◌, true, some, List, [], ◌∷◌, length, arith, pos}
use atlos.Printfmt.{printnum}
use atlos.Printfmt.Reread.{put, strtol-printnum}
use atlos.Printfmt.Number.{feed}
use atlos.Printfmt.Step.{vprintfmt, literal}
use atlos.Printfmt.Step.Items.{Conv, Item, format, args, AllItems, ShowsAll}
use atlos.Printfmt.Step.Shown.{vprintfmt-ShowsAll}
use atlos.Str.{Mem, strtol}
use atlos.Str.Text.{IsStr}

strtol-printnum_example :
    (out : List ℕ) × (printnum put 9 201 10 (pos 0) 32 [] ≡ some out)
    × ((g : ℕ) (m : Mem) (s : ℕ)
        → IsStr m s out
        → length out < g
        → strtol g m s 10 ≡ some (201, s + length out))
strtol-printnum_example =
    strtol-printnum 10 201 8 (omega arith) (omega arith) (omega arith) (omega arith)

-- "k%s=%05d" with "hi" at the address 1 and -42.
abbrev items : List Item
items =
    Item.plain 107
    ∷ Item.str 1 (104 ∷ 105 ∷ [])
    ∷ Item.plain 61
    ∷ Item.num true 5 Conv.signed_decimal 0xffffffd6
    ∷ []

abbrev text : Mem
text = literal (format items)

abbrev hi : Mem
hi = literal (104 ∷ 105 ∷ [])

items_at : IsStr text 1 (format items)
items_at = ground arith

items_ok : AllItems hi items
items_ok = ground arith

vprintfmt-ShowsAll_run :
    (xs : List ℕ) × ShowsAll items xs
    × (vprintfmt put 14 text hi 1 (args items) [] ≡ some (feed put xs []))
vprintfmt-ShowsAll_run =
    vprintfmt-ShowsAll put text hi items 14 1 [] items_ok items_at (omega arith)

abbrev mem : Mem
mem a = 7
