-- ===== src/Bitmap/Scan/Check.antt =====
-- `check_bitmap` of libs/bitmap.c, the kernel's test of its bitmaps. A failed BITMAP_ASSERT stays in
-- a loop for ever, which is `none`; ten bytes of a bitmap give the search eleven rounds.
use atlos.Base.{
  update, ℕ, zero, suc, ◌+◌, ◌-◌, ◌^◌, Bool, true, false, Option, none, some, ◌≡◌, refl, List, [],
  ◌∷◌, ◌==◌, if◌then◌else◌, ℤ, pos, negsuc,
}
use atlos.Str.{memset}
use atlos.Bitmap.{Bitmap, bitmap_set, bitmap_init, bitmap_remove}
use atlos.Bitmap.Scan.{bitmap_scan}

-- `n` calls of `bitmap_scan(&map, 1)`, with their results.
scan_times : ℕ → Bitmap → Option (List ℤ × Bitmap)
unfolding bitmap_scan
scan_times zero map = some ([], map)
scan_times (suc n) map = elim (bitmap_scan 11 map 1) [
  | none ↦ none
  | some (index, map') ↦ elim (scan_times n map') [
    | none ↦ none
    | some (res, map'') ↦ some (index ∷ res, map'')
  ]
]

-- An int as the `uint32_t` that a call takes.
abbrev to_unsigned : ℤ → ℕ
to_unsigned (pos n) = n
to_unsigned (negsuc n) = 2 ^ 32 - 1 - n

-- `bitmap_remove` of every second index.
remove_evens : List ℤ → Bitmap → Bitmap
remove_evens [] map = map
remove_evens (index ∷ []) map = (bitmap_remove map (to_unsigned index)).1
remove_evens (index ∷ (next ∷ res)) map = remove_evens res (bitmap_remove map (to_unsigned index)).1

-- The assertions that the results are `i`, `i + step` and so on.
counts : ℕ → ℕ → List ℤ → Bool
counts step i [] = true
counts step i (pos n ∷ res) = if n == i then counts step (i + step) res else false
counts step i (negsuc n ∷ res) = false

-- `check_bitmap`, where `buff` is what the stack holds before.
pub check_bitmap : (ℕ → ℕ) → Option (Unit {0})
unfolding scan_times remove_evens counts bitmap_init bitmap_remove
check_bitmap buff =
    let map = bitmap_init (record { len = 10; buff = buff }) in
    elim (scan_times 10 map) [
      | none ↦ none
      | some (res, map') ↦
          if counts 1 0 res
          then elim (scan_times 5 (remove_evens res map')) [
            | none ↦ none
            | some (rres, map'') ↦ if counts 2 0 rres then some tt else none
          ]
          else none
    ]

-- `check_bitmap` returns, whatever the stack holds before.
pub check_bitmap-passes : (buff : ℕ → ℕ) → check_bitmap buff ≡ some tt
unfolding check_bitmap memset update bitmap_set
check_bitmap-passes buff = refl
