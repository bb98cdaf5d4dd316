-- ===== src/Trap/Ticks.antt =====
-- The interrupts of the timer.
use atlos.Base.{
  ℕ, zero, suc, ◌+◌, ◌-◌, ◌/◌, ◌%◌, ◌^◌, ◌<◌, ◌≡◌, refl, Option, none, some, arith, ap, ◌∙◌,
  ℕ-eq_cases, ne→==, inl, inr,
}
use atlos.Dlist.{Ptr}
use atlos.Trap.{Traps, tick, trap_dispatch}

module _ {S : Type 0} (schedule : S → S) (cons_getc : S → ℕ × S) (tf switchk2u : Ptr) where
  -- A function, applied a number of times.
  abbrev pub times : ℕ → S → S
  times zero x = x
  times (suc n) x = schedule (times n x)

  -- `n` interrupts, one after the other.
  pub interrupts : ℕ → Traps S → Option (Traps S)
  interrupts zero s = some s
  interrupts (suc n) s = elim (interrupts n s) [
    | none ↦ none
    | some s' ↦ trap_dispatch schedule cons_getc tf switchk2u s'
  ]

  abbrev after : ℕ → Traps S → Traps S
  after n s = record s {
    ticks = s.ticks + n;
    sys = times ((s.ticks + n) / 100 - s.ticks / 100) s.sys;
  }

  timer_run :
      (s : Traps S)
      → s.frame.tf_trapno ≡ 32
      → trap_dispatch schedule cons_getc tf switchk2u s
        ≡ some (tick schedule cons_getc tf switchk2u s)
  unfolding trap_dispatch
  timer_run s timer = rw (trap_dispatch, timer) refl

  tick-after :
      (n : ℕ) (s : Traps S)
      → s.ticks + suc n < 2 ^ 32
      → tick schedule cons_getc tf switchk2u (after n s) ≡ after (suc n) s
  unfolding tick
  tick-after n s small =
      let word : (s.ticks + n + 1) % 2 ^ 32 ≡ s.ticks + suc n = omega (arith, small) in
      elim (ℕ-eq_cases ((s.ticks + suc n) % 100) 0) [
        | inl e ↦
            let calls : (s.ticks + suc n) / 100 - s.ticks / 100
                ≡ suc ((s.ticks + n) / 100 - s.ticks / 100) =
              omega (arith, e) in
            rw (tick, word, e, calls) refl
        | inr ne ↦
            let calls : (s.ticks + suc n) / 100 - s.ticks / 100
                ≡ (s.ticks + n) / 100 - s.ticks / 100 =
              omega (arith, ne) in
            rw (tick, word, ne→== ((s.ticks + suc n) % 100) 0 ne, calls) refl
      ]

  -- If the frame is that of the timer's interrupt and the ticks do not reach 2^32, `n` interrupts count
  -- `n` ticks and call `schedule` once for each multiple of 100 that the count reaches; nothing else
  -- changes.
  pub trap_dispatch-times :
      (n : ℕ) (s : Traps S)
      → s.frame.tf_trapno ≡ 32
      → s.ticks + n < 2 ^ 32
      → interrupts n s
        ≡ some (record s {
          ticks = s.ticks + n;
          sys = times ((s.ticks + n) / 100 - s.ticks / 100) s.sys;
        })
  unfolding interrupts
  trap_dispatch-times zero s timer small =
      let now : s.ticks + 0 ≡ s.ticks = omega arith in
      let same : s.ticks / 100 - s.ticks / 100 ≡ 0 = omega arith in rw (now, same) refl
  trap_dispatch-times (suc n) s timer small =
      rw (trap_dispatch-times n s timer (omega (arith, small)))
        (timer_run (after n s) timer ∙ ap some (tick-after n s small))
