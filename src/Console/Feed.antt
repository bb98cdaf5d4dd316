-- ===== src/Console/Feed.antt =====
-- `cons_intr` and `cons_getc` against a device that yields characters.
use atlos.Base.{
  ℕ, zero, suc, ◌+◌, ◌%◌, ◌^◌, ◌<◌, ◌≤◌, ◌≡◌, refl, Option, true, none, some, List, [], ◌∷◌, ◌++◌,
  length, arith, if◌then◌else◌, ◌==◌, inl, inr, ◌∙◌, ap, sym, ℕ-eq_cases, length-append,
}
use mathlib.Core.List.{append_assoc, append-nil}
use atlos.Console.{Cons, cons_put, cons_take, cons_intr, cons_getc, serial_intr, serial_proc_data}
use atlos.Console.Ring.{IsCons, pending, waiting, put-pending, take-pending, length-pending}

-- What is put of the characters that a device yields.
abbrev pub typed : List ℕ → List ℕ
typed [] = []
typed (x ∷ xs) = let rest = typed xs in if x == 0 then rest else x % 2 ^ 8 ∷ rest

one_more :
    (c : Cons) (x : ℕ)
    → pending (cons_put x c) ≡ pending c ++ x % 2 ^ 8 ∷ []
    → waiting (cons_put x c) ≡ suc (waiting c)
one_more c x queued =
    sym (length-pending (cons_put x c))
    ∙ ap length queued
    ∙ omega (arith, length-append (pending c) (x % 2 ^ 8 ∷ []), length-pending c)

module _ {D : Type 0} (proc : D → Option ℕ × D) where
  -- From the state `d` on, `proc` yields the characters and then, in the state `e`, no more.
  abbrev pub Yields : D → List ℕ → D → Type 0
  Yields d [] e = proc d ≡ (none, e)
  Yields d (c ∷ cs) e = (d' : D) × (proc d ≡ (some c, d')) × Yields d' cs e

  -- If the device yields `cs` and then no more, and the characters of them other than 0 fit into the
  -- buffer, at most 511 with those that wait, then `cons_intr`, given a round more than there are
  -- characters, ends and has appended their low bytes in order.
  pub intr-pending :
      (f : ℕ) (d e : D) (cs : List ℕ) (c : Cons)
      → Yields d cs e
      → IsCons c
      → waiting c + length (typed cs) ≤ 511
      → length cs < f
      → (c' : Cons) × (cons_intr proc f d c ≡ some (e, c'))
        × IsCons c'
        × (pending c' ≡ pending c ++ typed cs)
  unfolding cons_intr
  intr-pending zero d e cs c yields ok room fuel = absurd (omega arith)
  intr-pending (suc f) d e [] c yields ok room fuel =
      (c, rw (cons_intr, yields, yields) refl, ok, sym (append-nil (pending c)))
  intr-pending (suc f) d e (x ∷ cs) c (d', q, rest) ok room fuel = elim (ℕ-eq_cases x 0) [
    | inl z ↦
        let same = (put-pending c x ok).1 z in
        let skipped : typed (x ∷ cs) ≡ typed cs = ground arith in
        let (c', run, ok', queue) =
          intr-pending f d' e cs c rest ok (rw skipped at room) (omega arith) in
        (c', rw (cons_intr, q, q, same) run, ok', rw skipped queue)
    | inr nz ↦
        let kept : typed (x ∷ cs) ≡ x % 2 ^ 8 ∷ typed cs = ground arith in
        let room' : waiting c + suc (length (typed cs)) ≤ 511 = rw kept at room in
        let put = put-pending c x ok in
        let queued = put.2 nz (omega (arith, room')) in
        let grown : waiting (cons_put x c) ≡ suc (waiting c) = one_more c x queued in
        let (c', run, ok', queue) =
          intr-pending f d' e cs (cons_put x c) rest put.0 (rw grown (omega (arith, room')))
            (omega arith) in
        (
          c',
          rw (cons_intr, q, q) run,
          ok',
          queue ∙ rw (kept, queued) (append_assoc (pending c) (x % 2 ^ 8 ∷ []) (typed cs)),
        )
  ]

waiting_after :
    (c c' : Cons) (xs : List ℕ) → pending c' ≡ pending c ++ xs → waiting c' ≡ waiting c + length xs
waiting_after c c' xs q =
    sym (length-pending c')
    ∙ ap length q
    ∙ omega (arith, length-append (pending c) xs, length-pending c)

module _ {D : Type 0} (inb : ℕ → D → ℕ × D) (kbd : D → Option ℕ × D) where
  -- If the serial port exists and yields `cs`, then the keyboard yields `ks`, all that waits fits
  -- into the buffer and something waits, `cons_getc`, given a round more than each has characters,
  -- ends, returns the first character of the old queue, the serial port's and the keyboard's, in
  -- this order, and leaves the others waiting.
  pub getc-queue :
      (f : ℕ) (d d' e : D) (cs ks : List ℕ) (c : Cons) (y : ℕ) (ys : List ℕ)
      → Yields (serial_proc_data inb) d cs d'
      → Yields kbd d' ks e
      → IsCons c
      → pending c ++ (typed cs ++ typed ks) ≡ y ∷ ys
      → length ys < 511
      → length cs < f
      → length ks < f
      → (c' : Cons) × (cons_getc inb kbd true f d c ≡ some (y, e, c'))
        × IsCons c'
        × (pending c' ≡ ys)
  unfolding cons_getc serial_intr
  getc-queue f d d' e cs ks c y ys serial keys ok queue room fuel fuel' =
      let total : waiting c + (length (typed cs) + length (typed ks)) ≡ suc (length ys) = omega (
        arith,
        ap length queue,
        length-append (pending c) (typed cs ++ typed ks),
        length-append (typed cs) (typed ks),
        length-pending c,
      ) in
      let (c₁, run₁, ok₁, q₁) =
        intr-pending (serial_proc_data inb) f d d' cs c serial ok (omega (arith, total)) fuel in
      let grown = waiting_after c c₁ (typed cs) q₁ in
      let (c₂, run₂, ok₂, q₂) =
        intr-pending kbd f d' e ks c₁ keys ok₁ (rw grown (omega (arith, total))) fuel' in
      let all : pending c₂ ≡ y ∷ ys =
        q₂ ∙ rw q₁ (append_assoc (pending c) (typed cs) (typed ks)) ∙ queue in
      let taken = take-pending c₂ ok₂ in
      let first = taken.1 y ys all in
      (
        (cons_take c₂).1,
        rw (cons_getc, serial_intr, run₁, run₂) (ap (λ t. some (t, e, (cons_take c₂).1)) first.0),
        taken.0,
        first.1,
      )
