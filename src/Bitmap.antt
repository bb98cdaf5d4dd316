-- ===== src/Bitmap.antt =====
-- libs/bitmap.c: bitmaps over a buffer of bytes. `len` is the bound on the index of a bit in
-- `bitmap_set` and `bitmap_remove`, and the number of bytes in `bitmap_init`.
pub mod Update
pub mod Scan
mod Tests
use atlos.Base.{
  ℕ, zero, suc, ◌+◌, ◌/◌, ◌%◌, ◌^◌, Bool, true, false, ltb, if◌then◌else◌, update, bit_and, bit_or,
  bit_xor, ℤ, pos, negsuc,
}
use atlos.Str.{memset}

pub record Bitmap : Type 0 where
  pub len : ℕ
  pub buff : ℕ → ℕ

pub bitmap_set : Bitmap → ℕ → ℤ × Bitmap
bitmap_set map index =
    let mask = 2 ^ (index % 8) in
    if ltb index map.len
    then (
      pos 0,
      record map { buff = update map.buff (index / 8) (bit_or (map.buff (index / 8)) mask) },
    )
    else (negsuc 0, map)

pub bitmap_remove : Bitmap → ℕ → ℤ × Bitmap
bitmap_remove map index =
    let mask = bit_xor 0xff (2 ^ (index % 8)) in
    if ltb index map.len
    then (
      pos 0,
      record map { buff = update map.buff (index / 8) (bit_and (map.buff (index / 8)) mask) },
    )
    else (negsuc 0, map)

unfoldable pub bitmap_init : Bitmap → Bitmap
bitmap_init map = record map { buff = (memset map.buff 0 0 map.len).1 }
