-- ===== src/Base/Bits.antt =====
-- Binary digits: the digit of a number at a place, what `&` and `|` do to each, and the numbers
-- that a pattern of digits determines.
use Prim.Native.Nat.{
  ℕ, zero, suc, ◌+◌, ◌-◌, ◌*◌, ◌/◌, ◌%◌, ◌^◌, ◌≤◌, ◌<◌, min, max, bit_and, bit_or, digits,
  bit_and-bitwise, bit_or-bitwise,
}
use mathlib.Core.Path.{◌≡◌, refl, sym, ◌∙◌, ap}
use native.Mathlib.Nat.{le_refl, pow-suc, one-le-pow}
use native.Mathlib.Omega.{arith}

-- The binary digit of `a` at place `i`.
abbrev pub bit : ℕ → ℕ → ℕ
bit a zero = a % 2
bit a (suc i) = bit (a / 2) i

pub bit-zero : (i : ℕ) → bit 0 i ≡ 0
bit-zero zero = refl
bit-zero (suc i) = bit-zero i

pub bit-le : (a i : ℕ) → bit a i ≤ 1
bit-le a zero = omega arith
bit-le a (suc i) = bit-le (a / 2) i

and_digits : (n a b i : ℕ) → a ≤ n → bit (digits (λ c. zero) min n a b) i ≡ min (bit a i) (bit b i)
and_digits zero a b i h = let e : a ≡ 0 = omega arith in rw e (omega (arith, bit-zero i))
and_digits (suc n) zero b i h = omega (arith, bit-zero i)
and_digits (suc n) (suc a) b zero h = omega arith
and_digits (suc n) (suc a) b (suc i) h =
    ap (λ t. bit t i) (omega arith) ∙ and_digits n (suc a / 2) (b / 2) i (omega arith)

or_digits : (n a b i : ℕ) → a ≤ n → bit (digits (λ c. c) max n a b) i ≡ max (bit a i) (bit b i)
or_digits zero a b i h = let e : a ≡ 0 = omega arith in rw e (omega (arith, bit-zero i))
or_digits (suc n) zero b i h = omega (arith, bit-zero i)
or_digits (suc n) (suc a) b zero h = omega arith
or_digits (suc n) (suc a) b (suc i) h =
    ap (λ t. bit t i) (omega arith) ∙ or_digits n (suc a / 2) (b / 2) i (omega arith)

pub bit-bit_and : (a b i : ℕ) → bit (bit_and a b) i ≡ min (bit a i) (bit b i)
bit-bit_and a b i = ap (λ t. bit t i) (bit_and-bitwise a b) ∙ and_digits a a b i (le_refl a)

pub bit-bit_or : (a b i : ℕ) → bit (bit_or a b) i ≡ max (bit a i) (bit b i)
bit-bit_or a b i = ap (λ t. bit t i) (bit_or-bitwise a b) ∙ or_digits a a b i (le_refl a)

-- A number below `2 ^ k` has no digit from place `k` on.
pub bit_above : (k a i : ℕ) → a < 2 ^ k → k ≤ i → bit a i ≡ 0
bit_above zero a i h le = let e : a ≡ 0 = omega arith in rw e (bit-zero i)
bit_above (suc k) a zero h le = absurd (omega arith)
bit_above (suc k) a (suc i) h le = bit_above k (a / 2) i (omega (arith, pow-suc 2 k)) (omega arith)

-- A number from `2 ^ k` up to `2 ^ (k + 1)` has the digit 1 at place `k`.
pub bit_top : (k a : ℕ) → 2 ^ k ≤ a → a < 2 ^ suc k → bit a k ≡ 1
bit_top zero a lo hi = omega arith
bit_top (suc k) a lo hi =
    bit_top k (a / 2) (omega (arith, pow-suc 2 k)) (omega (arith, pow-suc 2 k, pow-suc 2 (suc k)))

-- Digits determine a number.
eq_zero_of_bits : (n a : ℕ) → a ≤ n → ((i : ℕ) → bit a i ≡ 0) → a ≡ 0
eq_zero_of_bits zero a h z = omega arith
eq_zero_of_bits (suc n) zero h z = refl
eq_zero_of_bits (suc n) (suc a) h z =
    omega (arith, z 0, eq_zero_of_bits n (suc a / 2) (omega arith) (λ i. z (suc i)))

pub all_zero : (a : ℕ) → ((i : ℕ) → bit a i ≡ 0) → a ≡ 0
all_zero a z = eq_zero_of_bits a a (le_refl a) z

-- Ones below place `k` and zeros from there on are `2 ^ k - 1`.
pub ones :
    (k a : ℕ) → ((i : ℕ) → i < k → bit a i ≡ 1) → ((i : ℕ) → k ≤ i → bit a i ≡ 0) → a + 1 ≡ 2 ^ k
ones zero a lo hi = ap (λ t. t + 1) (all_zero a (λ i. hi i (omega arith)))
ones (suc k) a lo hi = omega (
  arith,
  pow-suc 2 k,
  lo 0 (omega arith),
  ones k (a / 2) (λ i h. lo (suc i) (omega arith)) (λ i h. hi (suc i) (omega arith)),
)

-- The digits of `2 ^ k` and of `2 ^ k - 1`.
pub bit_below_pow : (k i : ℕ) → i < k → bit (2 ^ k) i ≡ 0
bit_below_pow zero i h = absurd (omega arith)
bit_below_pow (suc k) zero h = omega (arith, pow-suc 2 k)
bit_below_pow (suc k) (suc i) h =
    ap (λ t. bit t i) (omega (arith, pow-suc 2 k)) ∙ bit_below_pow k i (omega arith)

pub bit_below_ones : (k i : ℕ) → i < k → bit (2 ^ k - 1) i ≡ 1
bit_below_ones zero i h = absurd (omega arith)
bit_below_ones (suc k) zero h = omega (arith, pow-suc 2 k, one-le-pow k 2)
bit_below_ones (suc k) (suc i) h =
    ap (λ t. bit t i) (omega (arith, pow-suc 2 k, one-le-pow k 2))
    ∙ bit_below_ones k i (omega arith)

ext_fuel : (n a b : ℕ) → a ≤ n → b ≤ n → ((i : ℕ) → bit a i ≡ bit b i) → a ≡ b
ext_fuel zero a b p q same = omega arith
ext_fuel (suc n) a b p q same =
    omega
      (arith, same 0, ext_fuel n (a / 2) (b / 2) (omega arith) (omega arith) (λ i. same (suc i)))

pub bits_ext : (a b : ℕ) → ((i : ℕ) → bit a i ≡ bit b i) → a ≡ b
bits_ext a b same = ext_fuel (a + b) a b (omega arith) (omega arith) same

-- The recursion of `&` on the lowest digit.
and_step_bits :
    (a b i : ℕ) → bit (bit_and a b) i ≡ bit (min (a % 2) (b % 2) + 2 * bit_and (a / 2) (b / 2)) i
and_step_bits a b zero = omega (arith, bit-bit_and a b 0)
and_step_bits a b (suc i) =
    bit-bit_and a b (suc i) ∙ sym (bit-bit_and (a / 2) (b / 2) i) ∙ ap (λ t. bit t i) (omega arith)

pub bit_and_halves : (a b : ℕ) → bit_and a b ≡ min (a % 2) (b % 2) + 2 * bit_and (a / 2) (b / 2)
bit_and_halves a b = bits_ext _ _ (and_step_bits a b)

-- A mask of all ones below place `n` keeps a number below `2 ^ n`.
pub and_all_ones : (n x : ℕ) → x < 2 ^ n → bit_and x (2 ^ n - 1) ≡ x
and_all_ones zero x h = let e : x ≡ 0 = omega arith in rw e (bit_and-bitwise 0 0)
and_all_ones (suc n) x h = omega (
  arith,
  bit_and_halves x (2 ^ suc n - 1),
  pow-suc 2 n,
  one-le-pow n 2,
  and_all_ones n (x / 2) (omega (arith, pow-suc 2 n)),
  ap (λ t. bit_and (x / 2) t) (half_ones n),
)
  where
    half_ones : (k : ℕ) → (2 ^ suc k - 1) / 2 ≡ 2 ^ k - 1
    half_ones k = omega (arith, pow-suc 2 k, one-le-pow k 2)
