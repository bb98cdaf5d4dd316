-- ===== src/Bitmap/Scan/Tests.antt =====
-- Sixteen bytes: the first is full, and the lower half of the second; bit 12 is the first clear one.
use atlos.Base.{ℕ, ◌*◌, ◌<◌, ◌≤◌, ◌≡◌, ◌⊎◌, some, arith, ◌==◌, if◌then◌else◌, pos, negsuc}
use atlos.Bitmap.{Bitmap}
use atlos.Bitmap.Update.{bit_at}
use atlos.Bitmap.Scan.{bitmap_scan_partial}
use atlos.Bitmap.Scan.Check.{check_bitmap, check_bitmap-passes}
use atlos.Bitmap.Scan.Result.{First, Marked, bitmap_scan_partial-First}

abbrev bits : Bitmap
bits = record { len = 16; buff = λ a. if a == 0 then 0xff else if a == 1 then 0x0f else 0 }

bitmap_scan_partial-First_example :
    ((q : ℕ) × First bits 3 (8 * 16) q
      × ((after : Bitmap) × (bitmap_scan_partial 17 bits 1 3 ≡ some (pos q, after))
          × Marked bits q after))
    ⊎ (((i : ℕ) → 3 ≤ i → i < 8 * 16 → bit_at bits i ≡ 1)
        × (bitmap_scan_partial 17 bits 1 3 ≡ some (negsuc 0, bits)))
bitmap_scan_partial-First_example =
    bitmap_scan_partial-First bits 17 3 0 (ground arith) (omega arith) (omega arith)

check_bitmap-passes_run : check_bitmap (λ a. 0xcc) ≡ some tt
check_bitmap-passes_run = check_bitmap-passes (λ a. 0xcc)
