-- ===== src/Console/Keyboard/Tests.antt =====
-- A run of the keyboard: "aB" under Caps Lock comes out as "Ab".
use atlos.Base.{ℕ, ◌+◌, List, [], ◌∷◌, get_or, ltb, ◌==◌, if◌then◌else◌}
use atlos.Console.{Cons}

abbrev codes : List ℕ
codes = 30 ∷ 158 ∷ 42 ∷ 48 ∷ 176 ∷ 170 ∷ []

-- The device is the number of scan codes that have been read.
abbrev inb : ℕ → ℕ → ℕ × ℕ
inb port d =
    if port == 0x64
    then (if ltb d 6 then 1 else 0, d)
    else if port == 0x60
    then (get_or codes d 0, d + 1)
    else (0, d)

abbrev outb : ℕ → ℕ → ℕ → ℕ
outb port v d = d

abbrev cprintf : List ℕ → ℕ → ℕ
cprintf text d = d

abbrev empty : Cons
empty = record { buf = λ i. 0; rpos = 511; wpos = 511 }

abbrev both : ℕ → ℕ × ℕ → ℕ × (ℕ × ℕ)
both port (s, d) = let (v, d') = inb port d in (v, (s, d'))
