-- ===== src/Console/Tests.antt =====
-- Concrete runs of the console.
use atlos.Base.{
  ℕ, ◌%◌, ◌^◌, ◌<◌, ◌≤◌, ◌≡◌, ◌≢◌, refl, true, Option, none, some, [], ◌∷◌, ◌++◌, arith,
  if◌then◌else◌, ◌==◌,
}
use atlos.Console.{Cons, cons_put, cons_getc, serial_proc_data, Screen, cga_putc}
use atlos.Console.Ring.{IsCons, pending, waiting, put-pending}
use atlos.Console.Feed.{getc-queue}
use atlos.Console.Cga.{cga_putc-plain, cga_putc-inside, cell_after}

-- The last place of the buffer is the next to be written.
abbrev empty : Cons
empty = record { buf = λ i. 0; rpos = 511; wpos = 511 }

empty-IsCons : IsCons empty
empty-IsCons = record { rpos_lt = omega arith; wpos_lt = omega arith }

-- A device with an A on the serial port and then a B on the keyboard.
abbrev inb : ℕ → ℕ → ℕ × ℕ
inb port d = if port == 0x3fd then (if d == 2 then 1 else 0, d) else (65, 1)

abbrev kbd : ℕ → Option ℕ × ℕ
kbd d = if d == 1 then (some 66, 0) else (none, d)

abbrev key : ℕ
key = 321

put-pending_example :
    IsCons (cons_put key empty)
    × (key ≡ 0 → cons_put key empty ≡ empty)
    × (key ≢ 0
        → waiting empty < 511
        → pending (cons_put key empty) ≡ pending empty ++ key % 2 ^ 8 ∷ [])
    × (key ≢ 0 → waiting empty ≡ 511 → pending (cons_put key empty) ≡ [])
put-pending_example = put-pending empty key empty-IsCons

getc-queue_example :
    (c : Cons) × (cons_getc inb kbd true 2 2 empty ≡ some (65, 0, c))
    × IsCons c
    × (pending c ≡ 66 ∷ [])
unfolding serial_proc_data
getc-queue_example =
    getc-queue inb kbd 2 2 1 0 (65 ∷ []) (66 ∷ []) empty 65 (66 ∷ []) (1, refl, refl)
      (0, refl, refl) empty-IsCons refl (omega arith) (omega arith) (omega arith)

abbrev screen : Screen
screen = record { crt_buf = λ i. i; crt_pos = 1999 }

cga_putc-plain_run :
    ((cga_putc 65 screen).crt_pos ≡ 1920)
    × ((cga_putc 65 screen).crt_buf 1919 ≡ cell_after 65 screen 1919)
cga_putc-plain_run =
    cga_putc-plain 65 screen 1919 (omega arith) (omega arith) (ground arith) (ground arith)
      (ground arith)

cga_putc-inside_run :
    ((cga_putc 10 screen).crt_pos < 2000)
    × ((i : ℕ) → 2000 ≤ i → (cga_putc 10 screen).crt_buf i ≡ screen.crt_buf i)
cga_putc-inside_run = cga_putc-inside 10 screen (omega arith)
