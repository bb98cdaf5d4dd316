-- ===== src/Bitmap/Scan.antt =====
-- libs/bitmap.c: the search for clear bits. A `byte_t` points at a byte of the buffer, by its index,
-- and at a bit of it; behind the buffer stands what memory holds there.
pub mod First
mod Bytes
pub mod Loop
pub mod Result
mod Check
mod Tests
use atlos.Base.{
  ℕ, zero, suc, ◌+◌, ◌-◌, ◌*◌, ◌/◌, ◌%◌, ◌^◌, Bool, true, false, ◌&&◌, not, Option, none, some, ltb,
  leb, ◌==◌, if◌then◌else◌, bit_and, ℤ, pos, negsuc,
}
use atlos.Bitmap.{Bitmap, bitmap_set}

pub record Cursor : Type 0 where
  pub byte : ℕ
  pub off : ℕ

-- `BYTE_BIT`
abbrev pub byte_bit : Bitmap → Cursor → Bool
byte_bit map c = not (bit_and (map.buff c.byte) (2 ^ c.off) == 0)

-- How the inner loop ends: by `goto found`, or with `cur_byte`, `st_byte` and `empty_count`.
pub data Scan : Type 0 where
  found : Cursor → Scan
  stopped : Cursor → Cursor → ℕ → Scan

-- The inner loop; the outer `none` says that the rounds have run out.
pub scan_byte : ℕ → Bitmap → ℕ → Cursor → Cursor → ℕ → Option Scan
scan_byte zero map cnt cur st count = none
scan_byte (suc f) map cnt cur st count =
    let busy = byte_bit map cur in
    let cur' = record cur { off = cur.off + 1 } in
    let wrapped : Cursor = record { byte = cur.byte + 1; off = 0 } in
    let count' = if busy then count else count + 1 in
    let rest = scan_byte f map cnt cur' (if busy then cur' else st) count' in
    if ltb count cnt && ltb cur.byte map.len
    then (if not busy && (count + 1 == cnt)
        then some (found st)
        else if cur.off + 1 == 8
        then some (stopped wrapped wrapped count')
        else rest)
    else some (stopped cur st count)

-- The outer loop: where the bits found start, or `none` for BIT_SCAN_FAIL. A byte has eight bits, so
-- that the inner loop has eight rounds at most.
pub scan_loop : ℕ → Bitmap → ℕ → Cursor → Cursor → ℕ → Option (Option Cursor)
unfolding scan_byte
scan_loop zero map cnt cur st count = none
scan_loop (suc f) map cnt cur st count =
    let next : Cursor = record { byte = cur.byte + 1; off = 0 } in
    let skip = scan_loop f map cnt next next 0 in
    if map.buff cur.byte == 0xff then skip else elim (scan_byte 8 map cnt cur st count) [
      | none ↦ none
      | some (found c) ↦ some (some c)
      | some (stopped cur' st' count') ↦
          let again = scan_loop f map cnt cur' st' count' in
          if leb map.len cur'.byte then some none else again
    ]

-- `cnt` calls of `bitmap_set`, from `index` on.
pub set_bits : ℕ → ℕ → Bitmap → Bitmap
set_bits zero index map = map
set_bits (suc n) index map = set_bits n (index + 1) (bitmap_set map index).1

-- `bitmap_scan_partial`; the index, below 2^31, is an int.
pub bitmap_scan_partial : ℕ → Bitmap → ℕ → ℕ → Option (ℤ × Bitmap)
unfolding scan_loop set_bits
bitmap_scan_partial f map cnt st =
    let c : Cursor = record { byte = st / 8; off = st % 8 } in
    elim (scan_loop f map cnt c c 0) [
      | none ↦ none
      | some none ↦ some (negsuc 0, map)
      | some (some at) ↦
          let index = at.byte * 8 + at.off in some (pos index, set_bits cnt index map)
    ]

unfoldable pub bitmap_scan : ℕ → Bitmap → ℕ → Option (ℤ × Bitmap)
unfolding bitmap_scan_partial
bitmap_scan f map cnt = bitmap_scan_partial f map cnt 0
