-- ===== src/Bitmap/Scan/Loop.antt =====
-- The search for one bit finds the first clear bit of the bytes from its start on.
use atlos.Base.{
  ℕ, zero, suc, ◌+◌, ◌-◌, ◌*◌, ◌<◌, ◌≤◌, ◌≡◌, refl, ◌≢◌, inl, inr, false, Option, none, some, ltb,
  leb, ◌==◌, if◌then◌else◌, arith, ap, sym, ◌∙◌, Bool-cases, ℕ-eq_cases, ne→==, ==_iff,
  Option-cases,
}
use mathlib.Core.Option
use atlos.Bitmap.{Bitmap}
use atlos.Bitmap.Scan.{Cursor, scan_byte, scan_loop}
use atlos.Bitmap.Scan.First.{first_clear, cursor, first_clear-past, first_clear-found}
use atlos.Bitmap.Scan.Bytes.{
  at, outcome, scan_byte-first, loop-full, loop-found, loop-stopped, scan_byte-outside, full_byte,
}

module _ (map : Bitmap) where
  -- The first clear bit from `p` on, below the end of the buffer.
  abbrev pub clear_from : ℕ → Option Cursor
  clear_from p = Option.map cursor (first_clear map (8 * map.len - p) p)

  outside-none : (b o : ℕ) → map.len ≤ b → clear_from (8 * b + o) ≡ none
  outside-none b o out = let e : 8 * map.len - (8 * b + o) ≡ 0 = omega (arith, out) in rw (e) refl

  within-found :
      (b o q : ℕ)
      → o < 8
      → b < map.len
      → first_clear map (8 - o) (8 * b + o) ≡ some q
      → clear_from (8 * b + o) ≡ some (cursor q)
  within-found b o q low inside hit =
      let e : 8 * map.len - (8 * b + o) ≡ 8 - o + (8 * map.len - 8 * (b + 1)) = omega arith in
      rw (e, first_clear-found map (8 - o) (8 * map.len - 8 * (b + 1)) (8 * b + o) q hit) refl

  -- A byte with no clear bit from `o` on is passed over.
  past_byte :
      (b o : ℕ)
      → o < 8
      → (b < map.len → first_clear map (8 - o) (8 * b + o) ≡ none)
      → clear_from (8 * b + o) ≡ clear_from (8 * (b + 1) + 0)
  past_byte b o low none_here = elim (Bool-cases (ltb b map.len)) [
    | inl inside ↦
        let rest = 8 * map.len - 8 * (b + 1) in
        let below : b < map.len = ground (arith, inside) in
        let e : 8 * map.len - (8 * b + o) ≡ 8 - o + rest = omega (arith, below) in
        let e' : 8 * map.len - (8 * (b + 1) + 0) ≡ rest = omega arith in
        let e'' : 8 * b + o + (8 - o) ≡ 8 * (b + 1) + 0 = omega (arith, low) in
        rw (e, e', first_clear-past map (8 - o) rest (8 * b + o) (none_here below), e'') refl
    | inr out ↦
        outside-none b o (ground (arith, out)) ∙ sym (outside-none (b + 1) 0 (ground (arith, out)))
  ]

  -- One round, with what the rounds from the next byte on give.
  module _ (f b o : ℕ) (low : o < 8) where
    round_full :
        map.buff b ≡ 0xff
        → scan_loop f map 1 (at (b + 1) 0) (at (b + 1) 0) 0 ≡ some (clear_from (8 * (b + 1) + 0))
        → scan_loop (suc f) map 1 (at b o) (at b o) 0 ≡ some (clear_from (8 * b + o))
    round_full full rest =
        loop-full map f (at b o) (at b o) ((==_iff (map.buff b) 0xff).1 full)
        ∙ rest
        ∙ ap some (
            sym (past_byte b o low (λ inside. full_byte map (8 - o) b o (omega (arith, low)) full)))

    round_outside :
        map.buff b ≢ 0xff
        → map.len ≤ b
        → scan_loop (suc f) map 1 (at b o) (at b o) 0 ≡ some (clear_from (8 * b + o))
    round_outside partly out =
        loop-stopped map f (at b o) (at b o) (at b o) (at b o) 0 (ne→== (map.buff b) 0xff partly)
          (scan_byte-outside map 7 (at b o) (at b o) out)
        ∙ ground (arith, out, outside-none b o out)

    round_inside :
        map.buff b ≢ 0xff
        → b < map.len
        → (first_clear map (8 - o) (8 * b + o) ≡ none
            → b + 1 < map.len
            → scan_loop f map 1 (at (b + 1) 0) (at (b + 1) 0) 0
              ≡ some (clear_from (8 * (b + 1) + 0)))
        → scan_loop (suc f) map 1 (at b o) (at b o) 0 ≡ some (clear_from (8 * b + o))
    round_inside partly inside rest = elim (Option-cases (first_clear map (8 - o) (8 * b + o))) [
      | inl none_here ↦
          loop-stopped map f (at b o) (at b o) (at (b + 1) 0) (at (b + 1) 0) 0 open_byte
            (byte ∙ ap (λ x. some (outcome b x)) none_here)
          ∙ after (rest none_here)
          ∙ ap some (sym (past_byte b o low (λ _. none_here)))
      | inr (q, hit) ↦
          loop-found map f (at b o) (at b o) (cursor q) open_byte
            (byte ∙ ap (λ x. some (outcome b x)) hit)
          ∙ ap some (sym (within-found b o q low inside hit))
    ]
      where
        open_byte : (map.buff b == 0xff) ≡ false
        open_byte = ne→== (map.buff b) 0xff partly

        byte :
            scan_byte 8 map 1 (at b o) (at b o) 0
            ≡ some (outcome b (first_clear map (8 - o) (8 * b + o)))
        byte =
            let e : suc (7 - o) ≡ 8 - o = omega (arith, low) in
            scan_byte-first map 8 (7 - o) b o (omega (arith, low)) (omega arith) inside
            ∙ ap (λ (n : ℕ). some (outcome b (first_clear map n (8 * b + o)))) e

        after :
            (b + 1 < map.len
              → scan_loop f map 1 (at (b + 1) 0) (at (b + 1) 0) 0
                ≡ some (clear_from (8 * (b + 1) + 0)))
            → (if leb map.len (b + 1)
                then some none
                else scan_loop f map 1 (at (b + 1) 0) (at (b + 1) 0) 0)
              ≡ some (clear_from (8 * (b + 1) + 0))
        after on = elim (Bool-cases (leb map.len (b + 1))) [
          | inl out ↦ rw (out, outside-none (b + 1) 0 (ground (arith, out))) refl
          | inr more ↦ rw (more) (on (ground (arith, more)))
        ]

  -- Given a byte at or behind the end that is not full.
  module _ (j : ℕ) (sentinel : map.buff (map.len + j) ≢ 0xff) where
    pub scan_loop-first :
        (f b o : ℕ)
        → o < 8
        → b ≤ map.len + j
        → map.len + j < b + f
        → scan_loop f map 1 (at b o) (at b o) 0 ≡ some (clear_from (8 * b + o))
    scan_loop-first zero b o low near enough = absurd (omega (arith, near, enough))
    scan_loop-first (suc f) b o low near enough = elim (ℕ-eq_cases (map.buff b) 0xff) [
      | inl full ↦
          round_full f b o low full
            (scan_loop-first f (b + 1) 0 (omega arith) (past full) (omega (arith, enough)))
      | inr partly ↦ elim (Bool-cases (ltb b map.len)) [
        | inl inside ↦ round_inside f b o low partly (ground (arith, inside)) (λ _ more.
            scan_loop-first f (b + 1) 0 (omega arith) (omega (arith, more)) (omega (arith, enough)))
        | inr out ↦ round_outside f b o low partly (ground (arith, out))
      ]
    ]
      where
        past : map.buff b ≡ 0xff → b + 1 ≤ map.len + j
        past full = elim (ℕ-eq_cases b (map.len + j)) [
          | inl e ↦ absurd (sentinel (ap map.buff (sym e) ∙ full))
          | inr ne ↦ omega (arith, near, ne)
        ]

  hit-inside : (b o : ℕ) → clear_from (8 * b + o) ≢ none → b < map.len
  hit-inside b o hit = elim (Bool-cases (ltb b map.len)) [
    | inl inside ↦ ground (arith, inside)
    | inr out ↦ absurd (hit (outside-none b o (ground (arith, out))))
  ]

  -- Nothing is asked of the bytes at the end where there is a clear bit before it.
  pub scan_loop-some :
      (f b o : ℕ)
      → o < 8
      → map.len < b + f
      → clear_from (8 * b + o) ≢ none
      → scan_loop f map 1 (at b o) (at b o) 0 ≡ some (clear_from (8 * b + o))
  scan_loop-some zero b o low enough hit = absurd (omega (arith, enough, hit-inside b o hit))
  scan_loop-some (suc f) b o low enough hit = elim (ℕ-eq_cases (map.buff b) 0xff) [
    | inl full ↦
        let next = past_byte b o low (λ _. full_byte map (8 - o) b o (omega (arith, low)) full) in
        round_full f b o low full (
          scan_loop-some f (b + 1) 0 (omega arith) (omega (arith, enough))
            (λ end. hit (next ∙ end)))
    | inr partly ↦ round_inside f b o low partly (hit-inside b o hit) (λ none_here more.
        scan_loop-some f (b + 1) 0 (omega arith) (omega (arith, enough))
          (λ end. hit (past_byte b o low (λ _. none_here) ∙ end)))
  ]
