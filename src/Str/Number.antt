-- ===== src/Str/Number.antt =====
-- `strtol`: blanks, a sign, the prefix of a base, digits.
use atlos.Base.{
  ℕ, zero, suc, ◌+◌, ◌-◌, ◌*◌, ◌%◌, ◌^◌, ◌<◌, ◌≤◌, ◌≡◌, ◌≢◌, refl, ◌⊎◌, Bool, true, false, arith,
  Option, none, some, List, [], ◌∷◌, length, if◌then◌else◌, Option-cases, inl, inr,
}
use atlos.Str.{Mem, skip_blank, sign, prefix, digit, digits, strtol}

abbrev pub Blanks : Mem → ℕ → ℕ → Type 0
Blanks m s zero = Unit
Blanks m s (suc k) = ((m s ≡ 0x20) ⊎ (m s ≡ 0x09)) × Blanks m (s + 1) k

pub data Sign : Type 0 where
  no_sign : Sign
  plus : Sign
  dash : Sign

-- The sign that stands at `s`, where no blank does.
abbrev pub IsSign : Mem → ℕ → Sign → Type 0
IsSign m s Sign.no_sign = (m s ≢ 0x20) × (m s ≢ 0x09) × (m s ≢ 0x2b) × (m s ≢ 0x2d)
IsSign m s Sign.plus = m s ≡ 0x2b
IsSign m s Sign.dash = m s ≡ 0x2d

abbrev pub sign_len : Sign → ℕ
sign_len Sign.no_sign = 0
sign_len sg = 1

abbrev pub is_dash : Sign → Bool
is_dash Sign.dash = true
is_dash sg = false

pub data Radix : Type 0 where
  decimal : Radix
  octal : Radix
  hex : Radix
  given : Radix

-- The base `b` that the argument `base` and the bytes from `s` on stand for.
abbrev pub IsRadix : Mem → ℕ → ℕ → ℕ → Radix → Type 0
IsRadix m s base b Radix.decimal = (base ≡ 0) × (b ≡ 10) × (m s ≢ 0x30)
IsRadix m s base b Radix.octal = (base ≡ 0) × (b ≡ 8) × (m s ≡ 0x30) × (m (s + 1) ≢ 0x78)
IsRadix m s base b Radix.hex =
    ((base ≡ 0) ⊎ (base ≡ 16)) × (b ≡ 16) × (m s ≡ 0x30) × (m (s + 1) ≡ 0x78)
IsRadix m s base b Radix.given =
    (base ≢ 0) × (b ≡ base) × ((base ≢ 16) ⊎ (m s ≢ 0x30) ⊎ (m (s + 1) ≢ 0x78))

abbrev pub radix_len : Radix → ℕ
radix_len Radix.octal = 1
radix_len Radix.hex = 2
radix_len r = 0

-- The byte that ends the digits.
abbrev pub Ends : ℕ → Option ℕ → Type 0
Ends b none = Unit
Ends b (some d) = b ≤ d

-- From `s` on stand the digits `ds` of base `b`, and then no other.
abbrev pub IsNumeral : Mem → ℕ → ℕ → List ℕ → Type 0
IsNumeral m s b [] = Ends b (digit (m s))
IsNumeral m s b (d ∷ ds) = (digit (m s) ≡ some d) × (d < b) × IsNumeral m (s + 1) b ds

-- The number that digits stand for, after those that make `acc`.
abbrev pub value : ℕ → ℕ → List ℕ → ℕ
value b acc [] = acc
value b acc (d ∷ ds) = value b (acc * b + d) ds

value_ge : (b acc : ℕ) (ds : List ℕ) → 1 ≤ b → acc ≤ value b acc ds
value_ge b acc [] h = omega arith
value_ge b acc (d ∷ ds) h = omega (arith, value_ge b (acc * b + d) ds h, grows)
  where
    grows : acc ≤ acc * b
    grows = grind arith

module _ (m : Mem) where
  skip_blank_lem :
      (f k s : ℕ) (sg : Sign)
      → Blanks m s k
      → IsSign m (s + k) sg
      → k < f
      → skip_blank f m s ≡ some (s + k)
  unfolding skip_blank
  skip_blank_lem zero k s sg bl at_sign fuel = absurd (omega arith)
  skip_blank_lem (suc f) zero s Sign.no_sign bl at_sign fuel = ground arith
  skip_blank_lem (suc f) zero s Sign.plus bl at_sign fuel = ground arith
  skip_blank_lem (suc f) zero s Sign.dash bl at_sign fuel = ground arith
  skip_blank_lem (suc f) (suc k) s sg bl at_sign fuel =
      let next : s + 1 + k ≡ s + suc k = omega arith in
      ground (arith, skip_blank_lem f k (s + 1) sg bl.1 (rw next at_sign), next)

  sign_lem : (s : ℕ) (sg : Sign) → IsSign m s sg → sign m s ≡ (s + sign_len sg, is_dash sg)
  unfolding sign
  sign_lem s Sign.no_sign h = ground arith
  sign_lem s Sign.plus h = ground arith
  sign_lem s Sign.dash h = ground arith

  prefix_lem :
      (s base b : ℕ) (r : Radix) → IsRadix m s base b r → prefix m s base ≡ (s + radix_len r, b)
  unfolding prefix
  prefix_lem s base b Radix.decimal h = ground arith
  prefix_lem s base b Radix.octal h = ground arith
  prefix_lem s base b Radix.hex h = ground arith
  prefix_lem s base b Radix.given h = ground arith

  digits_lem :
      (f s b acc : ℕ) (ds : List ℕ)
      → IsNumeral m s b ds
      → 1 ≤ b
      → value b acc ds < 2 ^ 32
      → length ds < f
      → digits f m s b acc ≡ some (value b acc ds, s + length ds)
  unfolding digits
  digits_lem zero s b acc ds h pos_b small fuel = absurd (omega arith)
  digits_lem (suc f) s b acc [] h pos_b small fuel = elim (Option-cases (digit (m s))) [
    | inl e ↦ rw (digits, e) (ground arith)
    | inr (d, e) ↦ let stop : Ends b (some d) = rw e at h in rw (digits, e) (ground arith)
  ]
  digits_lem (suc f) s b acc (d ∷ ds) h pos_b small fuel =
      let fits : acc * b + d < 2 ^ 32 = omega (arith, value_ge b (acc * b + d) ds pos_b) in
      let kept : (acc * b + d) % 2 ^ 32 ≡ acc * b + d = omega arith in
      let ih = digits_lem f (s + 1) b (acc * b + d) ds h.2 pos_b small (omega arith) in
      rw (digits, h.0, kept, ih) (ground arith)

  -- On a number written with blanks, a sign, a prefix and digits of a base from 1 on, whose value is
  -- below 2^31, and given a round more than there are blanks and digits, `strtol` ends with that
  -- value, negated in 32 bits after a minus, and with the address behind the last digit. A prefix of
  -- base 16 is `0x` alone: of `0X` the 0 is a digit, and the X ends the number.
  pub strtol-value :
      (f s k : ℕ) (sg : Sign) (base b : ℕ) (r : Radix) (ds : List ℕ)
      → Blanks m s k
      → IsSign m (s + k) sg
      → IsRadix m (s + k + sign_len sg) base b r
      → IsNumeral m (s + k + sign_len sg + radix_len r) b ds
      → 1 ≤ b
      → value b 0 ds < 2 ^ 31
      → k < f
      → length ds < f
      → strtol f m s base
        ≡ some (
          if is_dash sg then (2 ^ 32 - value b 0 ds) % 2 ^ 32 else value b 0 ds,
          s + k + sign_len sg + radix_len r + length ds,
        )
  unfolding strtol
  strtol-value f s k sg base b r ds blanks at_sign radix numeral pos_b small enough enough' =
      rw
        (
          strtol,
          skip_blank_lem f k s sg blanks at_sign enough,
          sign_lem (s + k) sg at_sign,
          prefix_lem (s + k + sign_len sg) base b r radix,
          digits_lem f (s + k + sign_len sg + radix_len r) b 0 ds numeral pos_b (omega arith)
              enough',
          sign_lem (s + k) sg at_sign,
        )
        refl
