-- ===== src/Bitmap/Scan/Result.antt =====
-- What `bitmap_scan_partial` returns for one bit.
use atlos.Base.{
  ℕ, zero, suc, ◌+◌, ◌-◌, ◌*◌, ◌/◌, ◌%◌, ◌<◌, ◌≤◌, ◌≡◌, refl, ◌≢◌, ◌⊎◌, inl, inr, Option, none,
  some, arith, ap, sym, ◌∙◌, Bool-cases, if◌then◌else◌, ◌==◌, ℕ-eq_cases, Option-cases, pos, negsuc,
  bit-le, ltb,
}
use mathlib.Core.Option
use atlos.Bitmap.{Bitmap, bitmap_set}
use atlos.Bitmap.Update.{bit_at, set-bit_at, set-len}
use atlos.Bitmap.Scan.{Cursor, scan_loop, set_bits, bitmap_scan_partial}
use atlos.Bitmap.Scan.First.{first_clear, cursor}
use atlos.Bitmap.Scan.Loop.{clear_from, scan_loop-first, scan_loop-some}

some_ne : {c : Cursor} → some c ≢ none
some_ne e = absurd (ground (arith, e))

module _ (map : Bitmap) where
  pub first_clear-none :
      (n p i : ℕ) → first_clear map n p ≡ none → p ≤ i → i < p + n → bit_at map i ≡ 1
  first_clear-none zero p i none_here ge lt = absurd (omega (arith, ge, lt))
  first_clear-none (suc n) p i none_here ge lt = elim (ℕ-eq_cases i p) [
    | inl e ↦ rw (e) (ground (arith, none_here, bit-le (map.buff (p / 8)) (p % 8)))
    | inr ne ↦
        first_clear-none n (p + 1) i (ground (arith, none_here)) (omega (arith, ne, ge))
          (omega (arith, lt))
  ]

  -- `q` is the first clear bit from `p` on, and below `e`.
  abbrev pub First : ℕ → ℕ → ℕ → Type 0
  First p e q =
      (p ≤ q) × (q < e) × (bit_at map q ≡ 0) × ((i : ℕ) → p ≤ i → i < q → bit_at map i ≡ 1)

  pub first_clear-some : (n p q : ℕ) → first_clear map n p ≡ some q → First p (p + n) q
  first_clear-some zero p q here = absurd (ground (arith, here))
  first_clear-some (suc n) p q here = elim (ℕ-eq_cases (bit_at map p) 0) [
    | inl z ↦
        let e : p ≡ q = ground (arith, here, z) in
        (
          omega (arith, e),
          omega (arith, e),
          ap (bit_at map) (sym e) ∙ z,
          λ i ge lt. absurd (omega (arith, ge, lt, e)),
        )
    | inr nz ↦
        let (ge, lt, clear, before) = first_clear-some n (p + 1) q (ground (arith, here, nz)) in
        (
          omega (arith, ge),
          omega (arith, lt),
          clear,
          λ i ge' lt'. elim (ℕ-eq_cases i p) [
            | inl e ↦ rw (e) (omega (arith, nz, bit-le (map.buff (p / 8)) (p % 8)))
            | inr ne ↦ before i (omega (arith, ne, ge')) lt'
          ],
        )
  ]

  scanned :
      (f st : ℕ) (r : Option Cursor)
      → scan_loop f map 1 (cursor st) (cursor st) 0 ≡ some r
      → bitmap_scan_partial f map 1 st ≡ elim r [
        | none ↦ some (negsuc 0, map)
        | some c ↦ some (pos (c.byte * 8 + c.off), (bitmap_set map (c.byte * 8 + c.off)).1)
      ]
  unfolding bitmap_scan_partial set_bits
  scanned f st none run = rw (bitmap_scan_partial, run) refl
  scanned f st (some c) run = rw (bitmap_scan_partial, run) refl

  -- The bit `q` is marked, and only it, if its number is below `len`; else nothing is changed, since
  -- `bitmap_set` takes the number of bytes for that of bits.
  abbrev pub Marked : ℕ → Bitmap → Type 0
  Marked q after =
      (q < map.len
        → (after.len ≡ map.len) × ((i : ℕ) → bit_at after i ≡ (if i == q then 1 else bit_at map i)))
      × (map.len ≤ q → after ≡ map)

  set-Marked : (q : ℕ) → Marked q (bitmap_set map q).1
  set-Marked q = (
    λ below. (set-len map q, ((set-bit_at map q).0 below).1),
    λ ge. ap (λ r. r.1) ((set-bit_at map q).1 ge),
  )

  -- If some byte at or behind the end of the buffer is not 0xff, and the rounds reach that byte, the
  -- search for one bit from `st` on ends. It returns the first clear bit from `st` on, and marks that
  -- bit alone if its number is below `len`, the number of bytes, and else changes nothing; or, if all
  -- bits up to the end of the buffer are set, it returns -1 and changes nothing.
  pub bitmap_scan_partial-First :
      (f st j : ℕ)
      → map.buff (map.len + j) ≢ 0xff
      → st / 8 ≤ map.len + j
      → map.len + j < st / 8 + f
      → ((q : ℕ) × First st (8 * map.len) q
          × ((after : Bitmap) × (bitmap_scan_partial f map 1 st ≡ some (pos q, after))
              × Marked q after))
        ⊎ (((i : ℕ) → st ≤ i → i < 8 * map.len → bit_at map i ≡ 1)
            × (bitmap_scan_partial f map 1 st ≡ some (negsuc 0, map)))
  bitmap_scan_partial-First f st j sentinel near enough =
      elim (Option-cases (first_clear map (8 * map.len - st) st)) [
        | inl none_here ↦ inr (
          λ i ge lt. first_clear-none (8 * map.len - st) st i none_here ge (omega (arith, lt, ge)),
          scanned f st none (run ∙ ap (λ x. some (Option.map cursor x)) none_here),
        )
        | inr (q, here) ↦
            let (ge, lt, clear, before) = first_clear-some (8 * map.len - st) st q here in
            let back : q / 8 * 8 + q % 8 ≡ q = omega arith in
            inl (
              q,
              (ge, omega (arith, lt, ge), clear, before),
              (
                (bitmap_set map q).1,
                scanned f st (some (cursor q)) (run ∙ ap (λ x. some (Option.map cursor x)) here)
                    ∙ ap (λ x. some (pos x, (bitmap_set map x).1)) back,
                set-Marked q,
              ),
            )
      ]
    where
      run :
          scan_loop f map 1 (cursor st) (cursor st) 0
          ≡ some (Option.map cursor (first_clear map (8 * map.len - st) st))
      run =
          let e : 8 * (st / 8) + st % 8 ≡ st = omega arith in
          scan_loop-first map j sentinel f (st / 8) (st % 8) (omega arith) near enough
          ∙ ap (λ x. some (clear_from map x)) e

  pub First-unique : (p e q q' : ℕ) → First p e q → First p e q' → q ≡ q'
  First-unique p e q q' (ge, lt, clear, before) (ge', lt', clear', before') =
      elim (Bool-cases (ltb q q')) [
        | inl b ↦ absurd (omega (arith, clear, before' q ge (ground (arith, b))))
        | inr nb ↦ elim (Bool-cases (ltb q' q)) [
          | inl b ↦ absurd (omega (arith, clear', before q' ge' (ground (arith, b))))
          | inr nb' ↦ ground (arith, nb, nb')
        ]
      ]

  First-first_clear : (n p q : ℕ) → First p (p + n) q → first_clear map n p ≡ some q
  First-first_clear n p q first = elim (Option-cases (first_clear map n p)) [
    | inl none_here ↦
        absurd (omega (arith, first.2, first_clear-none n p q none_here first.0 first.1))
    | inr (q', here) ↦
        here ∙ ap some (First-unique p (p + n) q' q (first_clear-some n p q' here) first)
  ]

  -- A first clear bit from `st` on is found, within as many rounds as there are bytes and one more.
  pub bitmap_scan_partial-finds :
      (f st q : ℕ)
      → First st (8 * map.len) q
      → map.len < st / 8 + f
      → bitmap_scan_partial f map 1 st ≡ some (pos q, (bitmap_set map q).1)
  bitmap_scan_partial-finds f st q first enough =
      scanned f st (some (cursor q)) run ∙ ap (λ x. some (pos x, (bitmap_set map x).1)) back
    where
      back : q / 8 * 8 + q % 8 ≡ q
      back = omega arith

      st-parts : 8 * (st / 8) + st % 8 ≡ st
      st-parts = omega arith

      hit : clear_from map (8 * (st / 8) + st % 8) ≡ some (cursor q)
      hit =
          let e : st + (8 * map.len - st) ≡ 8 * map.len = omega (arith, first.0, first.1) in
          ap (clear_from map) st-parts
          ∙ ap (Option.map cursor) (First-first_clear (8 * map.len - st) st q (rw e first))

      run : scan_loop f map 1 (cursor st) (cursor st) 0 ≡ some (some (cursor q))
      run =
          scan_loop-some map f (st / 8) (st % 8) (omega arith) enough
            (λ end. some_ne (sym hit ∙ end))
          ∙ ap some hit
