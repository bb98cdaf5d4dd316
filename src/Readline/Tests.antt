-- ===== src/Readline/Tests.antt =====
-- A concrete line: a, backspace, b, a tabulator, c, and the end of the line.
use atlos.Base.{ℕ, ◌≡◌, ◌≤◌, inr, refl, some, List, [], ◌∷◌, ◌++◌, map, length, arith}
use atlos.Readline.{Line, Outcome, readline}
use atlos.Readline.Edit.{readline-edited, edited}
use atlos.Str.Text.{IsStr}

abbrev buf : ℕ → ℕ
buf i = 7

abbrev keys : List ℕ
keys = 97 ∷ 8 ∷ 98 ∷ 9 ∷ 99 ∷ []

readline-edited_example :
    (s : Line) × (readline buf (map some keys ++ some 13 ∷ []) ≡ (Outcome.line, s))
    × IsStr s.buf 0 (98 ∷ 99 ∷ [])
    × (length (edited keys []) ≤ 1023)
    × (s.out ≡ 13 ∷ 99 ∷ 98 ∷ 8 ∷ 97 ∷ [])
readline-edited_example = readline-edited buf keys 13 [] (ground arith) (inr refl)
