-- ===== src/Console.antt =====
-- kern/driver/console.c: the input buffer that the interrupt handlers fill and `cons_getc` empties,
-- the serial port's side of it, and the text screen. A device is a state `D` with `inb`, the read of
-- a port, as a parameter, since the port instructions are inline assembly.
pub mod Ring
pub mod Cga
pub mod Feed
pub mod Keyboard
mod Tests
use atlos.Base.{
  ℕ, zero, suc, ◌+◌, ◌-◌, ◌*◌, ◌%◌, ◌/◌, ◌^◌, Bool, true, false, Option, none, some, ltb, ◌==◌,
  bit_and, bit_or, if◌then◌else◌, update,
}

abbrev pub consbufsize : ℕ
consbufsize = 512

pub record Cons : Type 0 where
  pub buf : ℕ → ℕ
  pub rpos : ℕ
  pub wpos : ℕ

-- The body of the loop in `cons_intr`, for a character `c`.
pub cons_put : ℕ → Cons → Cons
cons_put c cons = if c == 0 then cons else record {
  buf = update cons.buf cons.wpos (c % 2 ^ 8);
  rpos = cons.rpos;
  wpos = if cons.wpos + 1 == consbufsize then 0 else cons.wpos + 1;
}

-- The end of `cons_getc`, after it has polled the devices: the character, or 0 if none waits.
pub cons_take : Cons → ℕ × Cons
cons_take cons = if cons.rpos == cons.wpos then (0, cons) else (
  cons.buf cons.rpos,
  record cons { rpos = if cons.rpos + 1 == consbufsize then 0 else cons.rpos + 1 },
)

module _ {D : Type 0} where
  -- `cons_intr`, where `proc` returns `none` for -1; the outer `none` says that it still has data
  -- after that many rounds.
  pub cons_intr : (D → Option ℕ × D) → ℕ → D → Cons → Option (D × Cons)
  unfolding cons_put
  cons_intr proc zero d cons = none
  cons_intr proc (suc f) d cons =
      let (read, d') = proc d in
      elim read [ none ↦ some (d', cons) | some c ↦ cons_intr proc f d' (cons_put c cons) ]

  -- A received DEL is a backspace.
  pub serial_proc_data : (ℕ → D → ℕ × D) → D → Option ℕ × D
  serial_proc_data inb d =
      let (status, d') = inb (0x3f8 + 5) d in
      let (c, d'') = inb 0x3f8 d' in
      if bit_and status 0x01 == 0 then (none, d') else (some (if c == 127 then 8 else c), d'')

  pub serial_intr : (ℕ → D → ℕ × D) → Bool → ℕ → D → Cons → Option (D × Cons)
  unfolding cons_intr serial_proc_data
  serial_intr inb serial_exists f d cons =
      if serial_exists then cons_intr (serial_proc_data inb) f d cons else some (d, cons)

  -- `cons_getc` polls the serial port and the keyboard, whose `kbd_proc_data` is a parameter here.
  pub cons_getc : (ℕ → D → ℕ × D) → (D → Option ℕ × D) → Bool → ℕ → D → Cons → Option (ℕ × D × Cons)
  unfolding cons_intr serial_intr cons_take
  cons_getc inb kbd serial_exists f d cons = elim (serial_intr inb serial_exists f d cons) [
    | none ↦ none
    | some (d₁, cons₁) ↦ elim (cons_intr kbd f d₁ cons₁) [
      | none ↦ none
      | some (d₂, cons₂) ↦ let (c, cons₃) = cons_take cons₂ in some (c, d₂, cons₃)
    ]
  ]

-- The text screen: `crt_buf`, of 16-bit cells, and `crt_pos`.
pub record Screen : Type 0 where
  pub crt_buf : ℕ → ℕ
  pub crt_pos : ℕ

abbrev pub crt_cols : ℕ
crt_cols = 80

abbrev pub crt_size : ℕ
crt_size = 2000

-- The `switch` of `cga_putc`, for an int `c` that is not negative; a cell keeps its low 16 bits.
pub cga_write : ℕ → Screen → Screen
cga_write c s =
    let k = c % 2 ^ 8 in
    if k == 8
    then if s.crt_pos == 0 then s else record {
      crt_buf = update s.crt_buf (s.crt_pos - 1) ((c / 2 ^ 8 * 2 ^ 8 + 0x20) % 2 ^ 16);
      crt_pos = s.crt_pos - 1;
    }
    else if k == 10
    then record s { crt_pos = (let p = (s.crt_pos + crt_cols) % 2 ^ 16 in p - p % crt_cols) }
    else if k == 13
    then record s { crt_pos = s.crt_pos - s.crt_pos % crt_cols }
    else record {
      crt_buf = update s.crt_buf s.crt_pos (c % 2 ^ 16);
      crt_pos = (s.crt_pos + 1) % 2 ^ 16;
    }

-- The lines move up by one, and the last becomes blank.
pub cga_scroll : Screen → Screen
cga_scroll s = if ltb s.crt_pos crt_size then s else record {
  crt_buf = λ i.
      if ltb i (crt_size - crt_cols)
      then s.crt_buf (i + crt_cols)
      else if ltb i crt_size
      then 0x0720
      else s.crt_buf i;
  crt_pos = s.crt_pos - crt_cols;
}

-- `cga_putc` without the writes to the cursor's ports.
pub cga_putc : ℕ → Screen → Screen
unfolding cga_write cga_scroll
cga_putc c s = let c' = if c / 2 ^ 8 == 0 then c + 0x0700 else c in cga_scroll (cga_write c' s)
