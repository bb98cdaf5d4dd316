-- ===== src/Console/Cga.antt =====
-- The text screen.
use atlos.Base.{ℕ, ◌+◌, ◌<◌, ◌≤◌, ◌≡◌, ◌≢◌, arith, if◌then◌else◌, update, ltb, ◌==◌}
use atlos.Console.{Screen, cga_putc, cga_write, cga_scroll}

-- The cell that a plain character leaves at `i`, on a screen that scrolls or does not.
abbrev pub cell_after : ℕ → Screen → ℕ → ℕ
cell_after c s i =
    if ltb (s.crt_pos + 1) 2000
    then (if i == s.crt_pos then c + 0x0700 else s.crt_buf i)
    else if ltb i 1919
    then s.crt_buf (i + 80)
    else if i == 1919
    then c + 0x0700
    else if ltb i 2000
    then 0x0720
    else s.crt_buf i

-- From a cursor inside the screen, `cga_putc` of a byte other than a backspace, a line feed or a
-- carriage return writes it, black on white, at the cursor, which moves on by one; behind the last
-- cell all lines move up by one and the cursor goes to the start of the last line, now blank.
pub cga_putc-plain :
    (c : ℕ) (s : Screen) (i : ℕ)
    → s.crt_pos < 2000
    → c < 256
    → c ≢ 8
    → c ≢ 10
    → c ≢ 13
    → ((cga_putc c s).crt_pos ≡ (if ltb (s.crt_pos + 1) 2000 then s.crt_pos + 1 else 1920))
      × ((cga_putc c s).crt_buf i ≡ cell_after c s i)
unfolding cga_putc cga_write cga_scroll update
cga_putc-plain c s i pos byte b n r = (ground arith, ground arith)

-- From a cursor inside the screen, `cga_putc` leaves the cursor inside the screen and writes no cell
-- outside of it, whatever the character.
pub cga_putc-inside :
    (c : ℕ) (s : Screen)
    → s.crt_pos < 2000
    → ((cga_putc c s).crt_pos < 2000)
      × ((i : ℕ) → 2000 ≤ i → (cga_putc c s).crt_buf i ≡ s.crt_buf i)
unfolding cga_putc cga_write cga_scroll update
cga_putc-inside c s pos = (ground arith, λ i out. ground arith)
