-- ===== src/Trap.antt =====
-- kern/trap/trap.c and kern/trap/trap.h: the table of interrupt gates, and what an interrupt does. A
-- trap frame is a `Trapframe` of `Process.Create`.
pub mod Ticks
pub mod Gates
mod Tests
use atlos.Base.{
  ℕ, zero, suc, ◌+◌, ◌-◌, ◌/◌, ◌%◌, ◌^◌, Bool, true, false, ◌||◌, not, Option, none, some, ◌==◌,
  if◌then◌else◌, update, bit_and, bit_or,
}
use atlos.Dlist.{Ptr}
use atlos.Process.Create.{Trapframe, kernel_cs, kernel_ds}

-- `struct gatedesc`, by its fields.
pub record GateDesc : Type 0 where
  pub gd_off_15_0 : ℕ
  pub gd_ss : ℕ
  pub gd_args : ℕ
  pub gd_rsv1 : ℕ
  pub gd_type : ℕ
  pub gd_s : ℕ
  pub gd_dpl : ℕ
  pub gd_p : ℕ
  pub gd_off_31_16 : ℕ

-- `SETGATE`
pub set_gate : Bool → ℕ → ℕ → ℕ → GateDesc
set_gate istrap sel off dpl = record {
  gd_off_15_0 = bit_and off 0xffff;
  gd_ss = sel;
  gd_args = 0;
  gd_rsv1 = 0;
  gd_type = if istrap then 0xf else 0xe;
  gd_s = 0;
  gd_dpl = dpl;
  gd_p = 1;
  gd_off_31_16 = off / 2 ^ 16;
}

abbrev pub t_switch_tou : ℕ
t_switch_tou = 120

abbrev pub t_switch_tok : ℕ
t_switch_tok = 121

-- The loop of `idt_init`, from the `i`-th gate on.
set_gates : (ℕ → ℕ) → ℕ → ℕ → (ℕ → GateDesc) → ℕ → GateDesc
unfolding set_gate
set_gates vectors zero i idt = idt
set_gates vectors (suc n) i idt =
    set_gates vectors n (i + 1) (update idt i (set_gate false kernel_cs (vectors i) 0))

-- `idt_init` up to the load of the table.
pub idt_init : (ℕ → ℕ) → (ℕ → GateDesc) → ℕ → GateDesc
unfolding set_gates
idt_init vectors idt =
    update (set_gates vectors 256 0 idt) t_switch_tok
      (set_gate false kernel_cs (vectors t_switch_tok) 3)

pub trap_in_kernel : Trapframe → Bool
trap_in_kernel tf = tf.tf_cs == kernel_cs

abbrev pub tick_num : ℕ
tick_num = 100

abbrev pub user_cs : ℕ
user_cs = 0x1b

abbrev pub user_ds : ℕ
user_ds = 0x23

abbrev pub fl_iopl_mask : ℕ
fl_iopl_mask = 0x3000

-- The state: `return_frame` is the word in front of the frame, from which the assembly takes the
-- frame that it returns by; `switchk2u` is at an address of its own, and `stacks` are the frames that
-- are copied to the stacks of users, without `tf_esp` and `tf_ss`. `sys` is the rest of the kernel.
pub record Traps (S : Type 0) : Type 0 where
  pub ticks : ℕ
  pub frame : Trapframe
  pub return_frame : Ptr
  pub switchk2u : Trapframe
  pub stacks : Ptr → Trapframe
  pub sys : S

module _ {S : Type 0} (schedule : S → S) (cons_getc : S → ℕ × S) (tf switchk2u : Ptr) where
  -- The timer.
  pub tick : Traps S → Traps S
  tick s =
      let ticks = (s.ticks + 1) % 2 ^ 32 in
      record s { ticks = ticks; sys = if ticks % tick_num == 0 then schedule s.sys else s.sys }

  -- T_SWITCH_TOU
  pub switch_to_user : Traps S → Traps S
  switch_to_user s = if s.frame.tf_cs == user_cs then s else record s {
    switchk2u = record s.frame {
      tf_cs = user_cs;
      tf_ds = user_ds;
      tf_es = user_ds;
      tf_ss = user_ds;
      tf_esp = (tf + 68) % 2 ^ 32;
      tf_eflags = bit_or s.frame.tf_eflags fl_iopl_mask;
    };
    return_frame = switchk2u;
  }

  -- T_SWITCH_TOK
  pub switch_to_kernel : Traps S → Traps S
  switch_to_kernel s =
      let frame = record s.frame {
        tf_cs = kernel_cs;
        tf_ds = kernel_ds;
        tf_es = kernel_ds;
        tf_eflags = bit_and s.frame.tf_eflags (2 ^ 32 - 1 - fl_iopl_mask);
      } in
      let switchu2k = (frame.tf_esp + 2 ^ 32 - 68) % 2 ^ 32 in
      if s.frame.tf_cs == kernel_cs then s else record s {
        frame = frame;
        stacks = update s.stacks switchu2k (record frame {
          tf_esp = (s.stacks switchu2k).tf_esp;
          tf_ss = (s.stacks switchu2k).tf_ss;
        });
        return_frame = switchu2k;
      }

  -- `trap_dispatch`, without its messages; `none` is the panic on an unexpected trap in the kernel.
  pub trap_dispatch : Traps S → Option (Traps S)
  unfolding tick switch_to_user switch_to_kernel
  trap_dispatch s =
      let no = s.frame.tf_trapno in
      if no == 32
      then some (tick s)
      else if (no == 36) || (no == 33)
      then some (record s { sys = (cons_getc s.sys).1 })
      else if no == t_switch_tou
      then some (switch_to_user s)
      else if no == t_switch_tok
      then some (switch_to_kernel s)
      else if (no == 46) || (no == 47)
      then some s
      else if bit_and s.frame.tf_cs 3 == 0
      then none
      else some s
