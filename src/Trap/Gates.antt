-- ===== src/Trap/Gates.antt =====
-- The gates that `idt_init` sets.
use atlos.Base.{
  ℕ, zero, suc, ◌+◌, ◌*◌, ◌%◌, ◌^◌, ◌<◌, ◌≤◌, ◌≡◌, refl, ◌==◌, if◌then◌else◌, arith, ◌∙◌, update,
  update_self, update_ne, bit_and, ℕ-eq_cases, ne→==, inl, inr, false,
}
use atlos.Process.Create.{kernel_cs}
use atlos.Pmm.Round.{and_low}
use atlos.Trap.{GateDesc, set_gate, set_gates, idt_init}

module _ (vectors : ℕ → ℕ) where
  set_gates-at :
      (n i : ℕ) (idt : ℕ → GateDesc) (j : ℕ)
      → (i ≤ j → j < i + n → set_gates vectors n i idt j ≡ set_gate false kernel_cs (vectors j) 0)
        × (j < i → set_gates vectors n i idt j ≡ idt j)
  unfolding set_gates
  set_gates-at zero i idt j = (λ ge lt. absurd (omega (arith, ge, lt)), λ lt. refl)
  set_gates-at (suc n) i idt j =
      let next = update idt i (set_gate false kernel_cs (vectors i) 0) in
      let (inside, before) = set_gates-at n (i + 1) next j in
      (
        λ ge lt. elim (ℕ-eq_cases j i) [
          | inl e ↦
              before (omega (arith, e))
              ∙ rw (e) (update_self idt i (set_gate false kernel_cs (vectors i) 0))
          | inr ne ↦ inside (omega (arith, ne, ge)) (omega (arith, lt))
        ],
        λ lt.
            before (omega (arith, lt))
            ∙ update_ne idt i j (set_gate false kernel_cs (vectors i) 0)
                (λ e. omega (arith, lt, e)),
      )

  gate_offset :
      (off dpl : ℕ)
      → off < 2 ^ 32
      → (let g = set_gate false kernel_cs off dpl in
          (g.gd_off_15_0 + 2 ^ 16 * g.gd_off_31_16 ≡ off)
          × (g.gd_off_15_0 < 2 ^ 16)
          × (g.gd_off_31_16 < 2 ^ 16)
          × (g.gd_dpl ≡ dpl)
          × (g.gd_ss ≡ kernel_cs)
          × (g.gd_type ≡ 0xe)
          × (g.gd_p ≡ 1)
          × (g.gd_s ≡ 0)
          × (g.gd_args ≡ 0)
          × (g.gd_rsv1 ≡ 0))
  unfolding set_gate
  gate_offset off dpl small =
      let low : bit_and off 0xffff ≡ off % 2 ^ 16 =
        let rest = and_low 16 off in omega (arith, rest.split, rest.small) in
      (
        omega (arith, low),
        omega (arith, low),
        omega (arith, small),
        refl,
        refl,
        refl,
        refl,
        refl,
        refl,
        refl,
      )

  -- After `idt_init`, if the routine of one of the 256 gates has an address of 32 bits, the gate is
  -- present, a system gate whose other fields are 0, leads to it in the text segment of the kernel and
  -- turns interrupts off, the two halves of the address have 16 bits, and only the gate of T_SWITCH_TOK
  -- may be taken by a user's `int`.
  pub idt_init-offsets :
      (idt : ℕ → GateDesc) (j : ℕ)
      → j < 256
      → vectors j < 2 ^ 32
      → (let g = idt_init vectors idt j in
          (g.gd_off_15_0 + 2 ^ 16 * g.gd_off_31_16 ≡ vectors j)
          × (g.gd_off_15_0 < 2 ^ 16)
          × (g.gd_off_31_16 < 2 ^ 16)
          × (g.gd_dpl ≡ (if j == 121 then 3 else 0))
          × (g.gd_ss ≡ kernel_cs)
          × (g.gd_type ≡ 0xe)
          × (g.gd_p ≡ 1)
          × (g.gd_s ≡ 0)
          × (g.gd_args ≡ 0)
          × (g.gd_rsv1 ≡ 0))
  unfolding idt_init
  idt_init-offsets idt j lt small = elim (ℕ-eq_cases j 121) [
    | inl e ↦ rw (e, update_self) (gate_offset (vectors 121) 3 (rw e at small))
    | inr ne ↦
        rw
          (
            update_ne (set_gates vectors 256 0 idt) 121 j (set_gate false kernel_cs (vectors 121) 3)
                ne,
            (set_gates-at 256 0 idt j).0 (omega arith) (omega (arith, lt)),
            ne→== j 121 ne,
          )
          (gate_offset (vectors j) 0 small)
  ]
