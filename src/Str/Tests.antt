-- ===== src/Str/Tests.antt =====
-- Concrete runs of the string functions.
use atlos.Base.{
  ℕ, ◌≡◌, ◌↔◌, refl, inl, inr, true, some, List, [], ◌∷◌, arith, if◌then◌else◌, get_or, ◌-◌, ℤ,
  is_zero, ltb,
}
use atlos.Str.{Mem, digit, strlen, strcmp, strchr, strfind, strcpy, strncpy, strtol, memmove}
use atlos.Str.Text.{IsStr}
use atlos.Str.Length.{strlen-length}
use atlos.Str.Compare.{strcmp-zero}
use atlos.Str.Find.{strchr-strfind}
use atlos.Str.Move.{memmove-moved, moved}
use atlos.Str.Copy.{strcpy-written, strncpy-written, written}
use atlos.Str.Number.{strtol-value, Sign, Radix}

-- "cab" at 100, " -0x1f," at 200.
abbrev mem : Mem
mem a =
    if ltb a 200
    then get_or (99 ∷ 97 ∷ 98 ∷ []) (a - 100) 0
    else get_or (0x20 ∷ 0x2d ∷ 0x30 ∷ 0x78 ∷ 0x31 ∷ 0x66 ∷ 0x2c ∷ []) (a - 200) 0

abbrev cab : List ℕ
cab = 99 ∷ 97 ∷ 98 ∷ []

cab_at : IsStr mem 100 cab
cab_at = ground arith

ab_at : IsStr mem 101 (97 ∷ 98 ∷ [])
ab_at = ground arith

strlen_run : strlen 9 mem 100 ≡ some 3
strlen_run = strlen-length mem 9 cab 100 cab_at (omega arith) (omega arith)

strcmp-zero_run :
    (r : ℤ) × (strcmp 9 mem 100 101 ≡ some r) × ((is_zero r ≡ true) ↔ (cab ≡ 97 ∷ 98 ∷ []))
strcmp-zero_run = strcmp-zero mem 9 cab (97 ∷ 98 ∷ []) 100 101 cab_at ab_at (omega arith)

strchr-strfind_run : (strfind 9 mem 100 98 ≡ some 102) × (strchr 9 mem 100 98 ≡ some 102)
strchr-strfind_run = strchr-strfind mem 98 9 cab 100 cab_at (omega arith)

memmove-moved_example : memmove mem 101 100 3 ≡ (101, moved mem 101 100 3)
memmove-moved_example = memmove-moved mem 101 100 3

strcpy-written_run : strcpy 9 mem 300 100 ≡ some (300, written mem 300 cab 4)
strcpy-written_run = strcpy-written 9 mem 300 100 cab cab_at (inr (omega arith)) (omega arith)

strncpy-written_run : strncpy mem 300 100 2 ≡ (300, written mem 300 cab 2)
strncpy-written_run = strncpy-written mem 300 100 2 cab cab_at (inr (omega arith))

strtol-value_example : strtol 9 mem 200 0 ≡ some (0xffffffe1, 206)
unfolding digit
strtol-value_example =
    strtol-value mem 9 200 1 Sign.dash 0 16 Radix.hex (1 ∷ 15 ∷ []) (inl refl, tt) refl
      (inl refl, refl, refl, refl) (refl, omega arith, (refl, omega arith, tt)) (omega arith)
      (omega arith) (omega arith) (omega arith)
