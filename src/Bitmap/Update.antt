-- ===== src/Bitmap/Update.antt =====
-- `bitmap_set` and `bitmap_remove`, bit by bit.
use atlos.Base.{
  ℕ, ◌/◌, ◌%◌, ◌^◌, ◌<◌, ◌≤◌, ◌≡◌, refl, Bool, true, ◌&&◌, arith, ◌==◌, Bool-cases, ltb,
  holds_below, below_holds, ==_iff, if◌then◌else◌, update, update_self, update_ne, bit, bit-le,
  bit-bit_and, bit-bit_or, bit_and, bit_or, bit_xor, pos, negsuc, lt→ltb, ◌∙◌, ℕ-eq_cases, inl, inr,
}
use atlos.Bitmap.{Bitmap, bitmap_set, bitmap_remove}

-- The bit at an index.
abbrev pub bit_at : Bitmap → ℕ → ℕ
bit_at map i = bit (map.buff (i / 8)) (i % 8)

-- The digits of `2 ^ k` and of its complement in a byte.
digit_test : ℕ → ℕ → Bool
digit_test k j =
    (bit (2 ^ k) j == (if j == k then 1 else 0))
    && (bit (bit_xor 0xff (2 ^ k)) j == (if j == k then 0 else 1))

digit_table : holds_below 8 (λ k. holds_below 8 (digit_test k)) ≡ true
unfolding holds_below digit_test
digit_table = refl

mask_digits :
    (k j : ℕ)
    → k < 8
    → j < 8
    → (bit (2 ^ k) j ≡ (if j == k then 1 else 0))
      × (bit (bit_xor 0xff (2 ^ k)) j ≡ (if j == k then 0 else 1))
unfolding digit_test
mask_digits k j hk hj =
    let row = below_holds 8 (λ k. holds_below 8 (digit_test k)) k digit_table hk in
    let cell : digit_test k j ≡ true = below_holds 8 (digit_test k) j row hj in
    (
      (==_iff (bit (2 ^ k) j) (if j == k then 1 else 0)).0 (ground (arith, cell)),
      (==_iff (bit (bit_xor 0xff (2 ^ k)) j) (if j == k then 0 else 1)).0 (ground (arith, cell)),
    )

module _ (map : Bitmap) (index : ℕ) where
  -- A write to the byte of an index that changes only the bit of the index.
  one_bit :
      (byte v : ℕ)
      → ((j : ℕ)
          → j < 8
          → bit byte j ≡ (if j == index % 8 then v else bit (map.buff (index / 8)) j))
      → (i : ℕ)
      → bit (update map.buff (index / 8) byte (i / 8)) (i % 8)
        ≡ (if i == index then v else bit_at map i)
  one_bit byte v digit i = elim (ℕ-eq_cases (i / 8) (index / 8)) [
    | inl e ↦ rw (e, update_self) (digit (i % 8) (omega arith) ∙ ground (arith, e))
    | inr ne ↦ rw (update_ne map.buff (index / 8) (i / 8) byte ne) (ground arith)
  ]

  set_digit :
      (j : ℕ)
      → j < 8
      → bit (bit_or (map.buff (index / 8)) (2 ^ (index % 8))) j
        ≡ (if j == index % 8 then 1 else bit (map.buff (index / 8)) j)
  set_digit j h = ground (
    arith,
    bit-bit_or (map.buff (index / 8)) (2 ^ (index % 8)) j,
    bit-le (map.buff (index / 8)) j,
    mask_digits (index % 8) j (omega arith) h,
  )

  clear_digit :
      (j : ℕ)
      → j < 8
      → bit (bit_and (map.buff (index / 8)) (bit_xor 0xff (2 ^ (index % 8)))) j
        ≡ (if j == index % 8 then 0 else bit (map.buff (index / 8)) j)
  clear_digit j h = ground (
    arith,
    bit-bit_and (map.buff (index / 8)) (bit_xor 0xff (2 ^ (index % 8))) j,
    bit-le (map.buff (index / 8)) j,
    mask_digits (index % 8) j (omega arith) h,
  )

  -- `bitmap_set` of an index below `len` returns 0, sets exactly that bit and keeps all others; of
  -- any other index it returns -1 and changes nothing.
  pub set-bit_at :
      (index < map.len
        → ((bitmap_set map index).0 ≡ pos 0)
          × ((i : ℕ)
              → bit_at (bitmap_set map index).1 i ≡ (if i == index then 1 else bit_at map i)))
      × (map.len ≤ index → bitmap_set map index ≡ (negsuc 0, map))
  unfolding bitmap_set
  set-bit_at = (
    λ below.
        let inside = lt→ltb index map.len below in
        (rw (bitmap_set, inside) refl, λ i. rw (bitmap_set, inside) (one_bit _ 1 set_digit i)),
    λ ge. ground arith,
  )

  -- `bitmap_remove` of an index below `len` returns 0, clears exactly that bit and keeps all others;
  -- of any other index it returns -1 and changes nothing.
  pub remove-bit_at :
      (index < map.len
        → ((bitmap_remove map index).0 ≡ pos 0)
          × ((i : ℕ)
              → bit_at (bitmap_remove map index).1 i ≡ (if i == index then 0 else bit_at map i)))
      × (map.len ≤ index → bitmap_remove map index ≡ (negsuc 0, map))
  unfolding bitmap_remove
  remove-bit_at = (
    λ below.
        let inside = lt→ltb index map.len below in
        (
          rw (bitmap_remove, inside) refl,
          λ i. rw (bitmap_remove, inside) (one_bit _ 0 clear_digit i),
        ),
    λ ge. ground arith,
  )

  pub set-len : (bitmap_set map index).1.len ≡ map.len
  unfolding bitmap_set
  set-len = elim (Bool-cases (ltb index map.len)) [
    | inl in_range ↦ rw (bitmap_set, in_range) refl
    | inr out ↦ rw (bitmap_set, out) refl
  ]

  pub remove-len : (bitmap_remove map index).1.len ≡ map.len
  unfolding bitmap_remove
  remove-len = elim (Bool-cases (ltb index map.len)) [
    | inl in_range ↦ rw (bitmap_remove, in_range) refl
    | inr out ↦ rw (bitmap_remove, out) refl
  ]
