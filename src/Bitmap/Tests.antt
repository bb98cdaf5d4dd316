-- ===== src/Bitmap/Tests.antt =====
-- A bitmap of ten bits, of which the bits 3 and 9 are set.
use atlos.Base.{ℕ, ◌<◌, ◌≤◌, ◌≡◌, if◌then◌else◌, ◌==◌, pos, negsuc}
use atlos.Bitmap.{Bitmap, bitmap_set, bitmap_remove}
use atlos.Bitmap.Update.{bit_at, set-bit_at, remove-bit_at}

abbrev bits : Bitmap
bits = record { len = 10; buff = λ a. if a == 0 then 8 else 2 }

abbrev eight : ℕ
eight = 8

abbrev three : ℕ
three = 3

set-bit_at_run :
    (eight < bits.len
      → ((bitmap_set bits eight).0 ≡ pos 0)
        × ((i : ℕ)
            → bit_at (bitmap_set bits eight).1 i ≡ (if i == eight then 1 else bit_at bits i)))
    × (bits.len ≤ eight → bitmap_set bits eight ≡ (negsuc 0, bits))
set-bit_at_run = set-bit_at bits eight

remove-bit_at_run :
    (three < bits.len
      → ((bitmap_remove bits three).0 ≡ pos 0)
        × ((i : ℕ)
            → bit_at (bitmap_remove bits three).1 i ≡ (if i == three then 0 else bit_at bits i)))
    × (bits.len ≤ three → bitmap_remove bits three ≡ (negsuc 0, bits))
remove-bit_at_run = remove-bit_at bits three
