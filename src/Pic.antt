-- ===== src/Pic.antt =====
-- kern/driver/picirq.c and kern/driver/clock.c: the mask of the two interrupt controllers, which is
-- kept in `irq_mask` until they are initialised. `outb`, inline assembly, is a parameter.
pub mod Mask
mod Tests
use atlos.Base.{ℕ, ◌+◌, ◌/◌, ◌%◌, ◌^◌, Bool, true, false, ◌==◌, if◌then◌else◌, bit_and, bit_xor}

pub record Pic : Type 0 where
  pub irq_mask : ℕ
  pub did_init : Bool

abbrev pub irq_slave : ℕ
irq_slave = 2

abbrev pub irq_offset : ℕ
irq_offset = 32

-- `IO_PIC1` and `IO_PIC2`.
abbrev pub io_pic1 : ℕ
io_pic1 = 0x20

abbrev pub io_pic2 : ℕ
io_pic2 = 0xa0

-- `TIMER_DIV(x)`.
abbrev pub timer_div : ℕ → ℕ
timer_div x = (1193182 + x / 2) / x

module _ {D : Type 0} (outb : ℕ → ℕ → D → D) where
  pub pic_setmask : ℕ → Pic → D → Pic × D
  pic_setmask mask pic d = (
    record pic { irq_mask = mask },
    if pic.did_init
        then outb (io_pic2 + 1) (mask / 2 ^ 8) (outb (io_pic1 + 1) (mask % 2 ^ 8) d)
        else d,
  )

  -- `irq` is below 16.
  pub pic_enable : ℕ → Pic → D → Pic × D
  unfolding pic_setmask
  pic_enable irq pic d = pic_setmask (bit_and pic.irq_mask (bit_xor 0xffff (2 ^ irq))) pic d

  -- The writes of `pic_init`: the masks, ICW1 to ICW4 of the master and of the slave, and OCW3.
  pub init_writes : D → D
  init_writes d =
      let d₁ = outb (io_pic2 + 1) 0xff (outb (io_pic1 + 1) 0xff d) in
      let d₂ = outb (io_pic1 + 1) irq_offset (outb io_pic1 0x11 d₁) in
      let d₃ = outb (io_pic1 + 1) 0x3 (outb (io_pic1 + 1) (2 ^ irq_slave) d₂) in
      let d₄ = outb (io_pic2 + 1) (irq_offset + 8) (outb io_pic2 0x11 d₃) in
      let d₅ = outb (io_pic2 + 1) 0x3 (outb (io_pic2 + 1) irq_slave d₄) in
      let d₆ = outb io_pic1 0x0a (outb io_pic1 0x68 d₅) in outb io_pic2 0x0a (outb io_pic2 0x68 d₆)

  pub pic_init : Pic → D → Pic × D
  unfolding init_writes pic_setmask
  pic_init pic d =
      let pic' : Pic = record pic { did_init = true } in
      let d' = init_writes d in
      if pic.irq_mask == 0xffff then (pic', d') else pic_setmask pic.irq_mask pic' d'

  -- `clock_init` without its message: `ticks` is 0 then.
  pub clock_init : Pic → D → ℕ × Pic × D
  unfolding pic_enable
  clock_init pic d =
      let d₁ = outb 0x43 0x34 d in
      let d₂ = outb 0x40 (timer_div 100 / 256) (outb 0x40 (timer_div 100 % 256) d₁) in
      let (pic', d₃) = pic_enable 0 pic d₂ in (0, pic', d₃)
