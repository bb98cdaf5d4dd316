-- ===== src/Bitmap/Scan/Bytes.antt =====
-- The two loops of the search, for one bit: a byte, and the bytes from a cursor on.
use atlos.Base.{
  ℕ, zero, suc, ◌+◌, ◌*◌, ◌/◌, ◌%◌, ◌<◌, ◌≤◌, ◌≡◌, refl, inl, inr, true, false, not, Option, none,
  some, ltb, leb, lt→ltb, ◌==◌, if◌then◌else◌, arith, bit, bit_below_ones, ap, sym, ◌∙◌, Bool-cases,
  ne→==, ==_iff,
}
use atlos.Bitmap.{Bitmap}
use atlos.Bitmap.Update.{bit_at}
use atlos.Bitmap.Scan.{Cursor, byte_bit, Scan, found, stopped, scan_byte, scan_loop}
use atlos.Bitmap.Scan.First.{first_clear, cursor, byte_bit-at}

abbrev pub at : ℕ → ℕ → Cursor
at b o = record { byte = b; off = o }

-- How the inner loop ends, from the first clear bit of the byte.
abbrev pub outcome : ℕ → Option ℕ → Scan
outcome b (some q) = found (cursor q)
outcome b none = stopped (at (b + 1) 0) (at (b + 1) 0) 0

at-cursor : (b o : ℕ) → o < 8 → cursor (8 * b + o) ≡ at b o
at-cursor b o h =
    let eb : (8 * b + o) / 8 ≡ b = omega (arith, h) in
    let eo : (8 * b + o) % 8 ≡ o = omega (arith, h) in rw (eb, eo) refl

ones_255 : (o : ℕ) → o < 8 → bit 0xff o ≡ 1
ones_255 o h = bit_below_ones 8 o h

module _ (map : Bitmap) where
  busy-at : (b o : ℕ) → o < 8 → byte_bit map (at b o) ≡ not (bit_at map (8 * b + o) == 0)
  busy-at b o h = ap (byte_bit map) (sym (at-cursor b o h)) ∙ byte_bit-at map (8 * b + o)

  scan_byte-clear :
      (f : ℕ) (c st : Cursor)
      → ltb c.byte map.len ≡ true
      → byte_bit map c ≡ false
      → scan_byte (suc f) map 1 c st 0 ≡ some (found st)
  unfolding scan_byte
  scan_byte-clear f c st inside clear = rw (inside, clear) refl

  scan_byte-busy :
      (f : ℕ) (c st : Cursor)
      → ltb c.byte map.len ≡ true
      → byte_bit map c ≡ true
      → scan_byte (suc f) map 1 c st 0 ≡ (
          if c.off + 1 == 8
          then some (stopped (at (c.byte + 1) 0) (at (c.byte + 1) 0) 0)
          else scan_byte f map 1 (at c.byte (c.off + 1)) (at c.byte (c.off + 1)) 0)
  unfolding scan_byte
  scan_byte-busy f c st inside busy = rw (inside, busy) refl

  pub scan_byte-first :
      (f r b o : ℕ)
      → o + suc r ≡ 8
      → r < f
      → b < map.len
      → scan_byte f map 1 (at b o) (at b o) 0
        ≡ some (outcome b (first_clear map (suc r) (8 * b + o)))
  scan_byte-first zero r b o e h inside = absurd (omega (arith, h))
  scan_byte-first (suc f) r b o e h inside = elim (Bool-cases (bit_at map (8 * b + o) == 0)) [
    | inl clear ↦
        scan_byte-clear f (at b o) (at b o) (lt→ltb b map.len inside)
          (busy-at b o low ∙ ap not clear)
        ∙ rw (clear, at-cursor b o low) refl
    | inr busy ↦
        scan_byte-busy f (at b o) (at b o) (lt→ltb b map.len inside) (busy-at b o low ∙ ap not busy)
        ∙ rw (busy) (next r e h (λ r e h. scan_byte-first f r b (o + 1) e h inside))
  ]
    where
      low : o < 8
      low = omega (arith, e)

      next :
          (r : ℕ)
          → o + suc r ≡ 8
          → r < suc f
          → ((r : ℕ)
              → o + 1 + suc r ≡ 8
              → r < f
              → scan_byte f map 1 (at b (o + 1)) (at b (o + 1)) 0
                ≡ some (outcome b (first_clear map (suc r) (8 * b + (o + 1)))))
          → (if o + 1 == 8
              then some (stopped (at (b + 1) 0) (at (b + 1) 0) 0)
              else scan_byte f map 1 (at b (o + 1)) (at b (o + 1)) 0)
            ≡ some (outcome b (first_clear map r (8 * b + o + 1)))
      next zero e h rest = rw ((==_iff (o + 1) 8).1 (omega (arith, e))) refl
      next (suc r) e h rest =
          let e' : 8 * b + (o + 1) ≡ 8 * b + o + 1 = omega arith in
          rw (ne→== (o + 1) 8 (λ t. omega (arith, e, t))) (
            rest r (omega (arith, e)) (omega (arith, h))
            ∙ ap (λ t. some (outcome b (first_clear map (suc r) t))) e')

  -- The rounds of the outer loop.
  pub loop-full :
      (f : ℕ) (c st : Cursor)
      → (map.buff c.byte == 0xff) ≡ true
      → scan_loop (suc f) map 1 c st 0 ≡ scan_loop f map 1 (at (c.byte + 1) 0) (at (c.byte + 1) 0) 0
  unfolding scan_loop
  loop-full f c st full = rw (full) refl

  pub loop-found :
      (f : ℕ) (c st q : Cursor)
      → (map.buff c.byte == 0xff) ≡ false
      → scan_byte 8 map 1 c st 0 ≡ some (found q)
      → scan_loop (suc f) map 1 c st 0 ≡ some (some q)
  unfolding scan_loop
  loop-found f c st q partly hit = rw (partly, hit) refl

  pub loop-stopped :
      (f : ℕ) (c st c' st' : Cursor) (n : ℕ)
      → (map.buff c.byte == 0xff) ≡ false
      → scan_byte 8 map 1 c st 0 ≡ some (stopped c' st' n)
      → scan_loop (suc f) map 1 c st 0
        ≡ (if leb map.len c'.byte then some none else scan_loop f map 1 c' st' n)
  unfolding scan_loop
  loop-stopped f c st c' st' n partly stop = rw (partly, stop) refl

  pub scan_byte-outside :
      (f : ℕ) (c st : Cursor)
      → map.len ≤ c.byte
      → scan_byte (suc f) map 1 c st 0 ≡ some (stopped c st 0)
  unfolding scan_byte
  scan_byte-outside f c st out = ground (arith, out)

  -- The digits of 0xff.
  pub full_byte : (r b o : ℕ) → o + r ≡ 8 → map.buff b ≡ 0xff → first_clear map r (8 * b + o) ≡ none
  full_byte zero b o e full = refl
  full_byte (suc r) b o e full =
      let eb : (8 * b + o) / 8 ≡ b = omega (arith, e) in
      let eo : (8 * b + o) % 8 ≡ o = omega (arith, e) in
      let ep : 8 * b + (o + 1) ≡ 8 * b + o + 1 = omega (arith, e) in
      rw (eb, eo, full, ones_255 o (omega (arith, e)))
        (ap (first_clear map r) (sym ep) ∙ full_byte r b (o + 1) (omega (arith, e)) full)
