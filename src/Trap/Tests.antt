-- ===== src/Trap/Tests.antt =====
-- A frame of the timer, and 250 ticks; `schedule` counts its calls.
use atlos.Base.{ℕ, suc, ◌+◌, ◌-◌, ◌*◌, ◌/◌, ◌^◌, ◌<◌, ◌≡◌, refl, some, arith}
use atlos.Process.Create.{Trapframe, kernel_cs}
use atlos.Trap.{GateDesc, Traps, idt_init}
use atlos.Trap.Ticks.{times, interrupts, trap_dispatch-times}
use atlos.Trap.Gates.{idt_init-offsets}

abbrev frame : Trapframe
frame = record {
  reg_edi = 0;
  reg_esi = 0;
  reg_ebp = 0;
  reg_oesp = 0;
  reg_ebx = 0;
  reg_edx = 0;
  reg_ecx = 0;
  reg_eax = 0;
  tf_gs = 0;
  tf_fs = 0;
  tf_es = 0;
  tf_ds = 0;
  tf_trapno = 32;
  tf_err = 0;
  tf_eip = 0;
  tf_cs = 8;
  tf_eflags = 0;
  tf_esp = 0;
  tf_ss = 0;
}

abbrev traps : Traps ℕ
traps = record {
  ticks = 199;
  frame = frame;
  return_frame = 0;
  switchk2u = frame;
  stacks = λ p. frame;
  sys = 0;
}

trap_dispatch-times_example :
    interrupts suc (λ s. (0, s)) 5000 6000 250 traps
    ≡ some (record traps {
      ticks = 199 + 250;
      sys = times suc (λ s. (0, s)) 5000 6000 ((199 + 250) / 100 - 199 / 100) 0;
    })
trap_dispatch-times_example =
    trap_dispatch-times suc (λ s. (0, s)) 5000 6000 250 traps refl (omega arith)

-- No gate is set yet.
abbrev no_gate : GateDesc
no_gate = record {
  gd_off_15_0 = 0;
  gd_ss = 0;
  gd_args = 0;
  gd_rsv1 = 0;
  gd_type = 0;
  gd_s = 0;
  gd_dpl = 0;
  gd_p = 0;
  gd_off_31_16 = 0;
}

idt_init-offsets_example :
    (let g = idt_init (λ i. 0xc0100000 + 8 * i) (λ i. no_gate) 121 in
      (g.gd_off_15_0 + 2 ^ 16 * g.gd_off_31_16 ≡ 0xc0100000 + 8 * 121)
      × (g.gd_off_15_0 < 2 ^ 16)
      × (g.gd_off_31_16 < 2 ^ 16)
      × (g.gd_dpl ≡ 3)
      × (g.gd_ss ≡ kernel_cs)
      × (g.gd_type ≡ 0xe)
      × (g.gd_p ≡ 1)
      × (g.gd_s ≡ 0)
      × (g.gd_args ≡ 0)
      × (g.gd_rsv1 ≡ 0))
idt_init-offsets_example =
    idt_init-offsets (λ i. 0xc0100000 + 8 * i) (λ i. no_gate) 121 (omega arith) (omega arith)
