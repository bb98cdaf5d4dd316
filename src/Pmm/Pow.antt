-- ===== src/Pmm/Pow.antt =====
-- `next_pow_of_2`: the smallest power of two that is not below its argument.
use native.Mathlib.Decide.{dec_le}
use native.Mathlib.Nat.{pow-suc, one-le-pow, pow-le-pow_right, le_refl}
use atlos.Base.{
  ℕ, zero, suc, ◌+◌, ◌-◌, ◌*◌, ◌/◌, ◌%◌, ◌^◌, ◌≤◌, ◌<◌, ◌≡◌, refl, ◌⊎◌, inl, inr, true, false,
  arith, bit_and, bit_or, bit, bit-bit_and, bit-bit_or, bit_above, bit_top, all_zero, ones,
  bit_below_pow, bit-le, ◌∙◌, ap, ==_iff, ne→==, bit-zero, ℕ-eq_cases,
}
use atlos.Pmm.{is_pow_of_2, smear, next_pow_of_2}

-- Ones at the places from `k` down, `w` of them, and none above `k`.
record Window (k w x : ℕ) : Type 0 where
  inside : (i : ℕ) → i ≤ k → k < i + w → bit x i ≡ 1
  above : (i : ℕ) → k < i → bit x i ≡ 0

-- One round doubles the window; `y` is `x` shifted down by its width.
Window-double :
    (k w x y : ℕ)
    → Window k w x
    → ((i : ℕ) → bit y i ≡ bit x (i + w))
    → Window k (w + w) (bit_or x y)
Window-double k w x y win shift = record {
  inside = λ i le lt. elim (near i) [
    | inl h ↦ omega (arith, bit-bit_or x y i, win.inside i le h, bit-le y i)
    | inr h ↦ omega (
      arith,
      bit-bit_or x y i,
      shift i,
      win.inside (i + w) (omega arith) (omega arith),
      bit-le x i,
    )
  ];
  above = λ i lt.
      omega (arith, bit-bit_or x y i, shift i, win.above i lt, win.above (i + w) (omega arith));
}
  where
    near : (i : ℕ) → (k < i + w) ⊎ (i + w ≤ k)
    near i = elim (dec_le (i + w) k) [ yes h ↦ inr h | no h ↦ inl (omega arith) ]

-- A shift moves the digits down.
abbrev halve : ℕ → ℕ → ℕ
halve zero x = x
halve (suc s) x = halve s (x / 2)

bit-halve : (s x i j : ℕ) → j ≡ i + s → bit (halve s x) i ≡ bit x j
bit-halve zero x i j e = let same : i ≡ j = omega arith in ap (bit x) same
bit-halve (suc s) x i zero e = absurd (omega arith)
bit-halve (suc s) x i (suc j) e = bit-halve s (x / 2) i j (omega arith)

bit-shift : (s x y i : ℕ) → y ≡ halve s x → bit y i ≡ bit x (i + s)
bit-shift s x y i e = ap (λ t. bit t i) e ∙ bit-halve s x i (i + s) refl

Window-start : (k x : ℕ) → 2 ^ k ≤ x → x < 2 ^ suc k → Window k 1 x
Window-start k x lo hi = record {
  inside = λ i le lt. let e : i ≡ k = omega arith in rw e (bit_top k x lo hi);
  above = λ i lt. bit_above (suc k) x i hi lt;
}

-- Smearing fills every place from the top digit down.
smear-ones : (k x : ℕ) → k < 32 → 2 ^ k ≤ x → x < 2 ^ suc k → smear x + 1 ≡ 2 ^ suc k
unfolding smear
smear-ones k x small lo hi =
    let x₁ = bit_or x (x / 2) in
    let x₂ = bit_or x₁ (x₁ / 2 ^ 2) in
    let x₃ = bit_or x₂ (x₂ / 2 ^ 4) in
    let x₄ = bit_or x₃ (x₃ / 2 ^ 8) in
    let w₁ = Window-double k 1 x (x / 2) (Window-start k x lo hi) (λ i. bit-shift 1 x _ i refl) in
    let w₂ = Window-double k 2 x₁ (x₁ / 2 ^ 2) w₁ (λ i. bit-shift 2 x₁ _ i (omega arith)) in
    let w₃ = Window-double k 4 x₂ (x₂ / 2 ^ 4) w₂ (λ i. bit-shift 4 x₂ _ i (omega arith)) in
    let w₄ = Window-double k 8 x₃ (x₃ / 2 ^ 8) w₃ (λ i. bit-shift 8 x₃ _ i (omega arith)) in
    let w₅ = Window-double k 16 x₄ (x₄ / 2 ^ 16) w₄ (λ i. bit-shift 16 x₄ _ i (omega arith)) in
    ones (suc k) (smear x) (λ i h. w₅.inside i (omega arith) (omega arith))
      (λ i h. w₅.above i (omega arith))

-- A power of two passes the test.
pub is_pow-true : (k : ℕ) → k < 32 → is_pow_of_2 (2 ^ k) ≡ true
unfolding is_pow_of_2
is_pow-true k small =
    let pos = one-le-pow k 2 (omega arith) in
    let top = pow-le-pow_right {n = 2} (omega arith) {i = suc k} {j = 32} (omega arith) in
    let pred : (2 ^ k + 2 ^ 32 - 1) % 2 ^ 32 ≡ 2 ^ k - 1 = omega (arith, pow-suc 2 k) in
    rw pred ((==_iff _ 0).1 (all_zero _ (λ i. digit i)))
  where
    digit : (i : ℕ) → bit (bit_and (2 ^ k) (2 ^ k - 1)) i ≡ 0
    digit i = elim (dec_le k i) [
      | yes h ↦ omega (
        arith,
        bit-bit_and (2 ^ k) (2 ^ k - 1) i,
        bit_above k (2 ^ k - 1) i (omega (arith, one-le-pow k 2)) h,
      )
      | no h ↦ omega (arith, bit-bit_and (2 ^ k) (2 ^ k - 1) i, bit_below_pow k i (omega arith))
    ]

pub next_pow-pow : (k : ℕ) → k < 32 → next_pow_of_2 (2 ^ k) ≡ 2 ^ k
unfolding next_pow_of_2
next_pow-pow k small = rw (is_pow-true k small) refl

-- Nothing between two powers of two does.
is_pow-false : (k x : ℕ) → k < 32 → 2 ^ k < x → x < 2 ^ suc k → is_pow_of_2 x ≡ false
unfolding is_pow_of_2
is_pow-false k x small lo hi =
    let top = pow-le-pow_right {n = 2} (omega arith) {i = suc k} {j = 32} (omega arith) in
    let pred : (x + 2 ^ 32 - 1) % 2 ^ 32 ≡ x - 1 = omega arith in
    let a = bit_top k x (omega arith) hi in
    let b = bit_top k (x - 1) (omega arith) (omega arith) in
    rw pred (
      ne→== _ 0 (λ q.
        let z : bit (bit_and x (x - 1)) k ≡ bit 0 k = ap (λ t. bit t k) q in
        omega (arith, z, bit-zero k, bit-bit_and x (x - 1) k, a, b)))

-- Every positive number lies between two neighbouring powers of two.
log_of : (n x : ℕ) → 0 < x → x < 2 ^ n → (k : ℕ) × (k < n) × (2 ^ k ≤ x) × (x < 2 ^ suc k)
log_of zero x pos h = absurd (omega arith)
log_of (suc n) x pos h = elim (dec_le (2 ^ n) x) [
  | yes le ↦ (n, omega arith, le, h)
  | no lt ↦ let (k, small, lo, hi) = log_of n x pos (omega arith) in (k, omega arith, lo, hi)
]

below_31 : (k x : ℕ) → k < 32 → 2 ^ k < x → x ≤ 2 ^ 31 → k ≤ 30
below_31 k x small lt le = elim (dec_le k 30) [
  | yes h ↦ h
  | no h ↦ let e : k ≡ 31 = omega arith in absurd (omega (arith, ap (λ t. 2 ^ t) e))
]

-- What `next_pow_of_2` owes its callers.
pub record IsNextPow (x y : ℕ) : Type 0 where
  pub exponent : ℕ
  pub power : y ≡ 2 ^ exponent
  pub covers : x ≤ y
  pub tight : y < 2 * x
  pub small : exponent ≤ 31

-- For an argument from 1 to `2 ^ 31`, `next_pow_of_2` is the least power of two that is not below
-- it: a power of two, at least the argument, and less than its double.
pub next_pow_of_2-IsNextPow : (x : ℕ) → 0 < x → x ≤ 2 ^ 31 → IsNextPow x (next_pow_of_2 x)
unfolding next_pow_of_2
next_pow_of_2-IsNextPow x pos le =
    let (k, small, lo, hi) = log_of 32 x pos (omega arith) in
    elim (ℕ-eq_cases x (2 ^ k)) [
      | inl e ↦
          rw (e, is_pow-true k small)
            (record {
              exponent = k;
              power = refl;
              covers = le_refl _;
              tight = omega (arith, one-le-pow k 2);
              small = omega arith;
            })
      | inr ne ↦
          let lt : 2 ^ k < x = omega arith in
          let k30 : k ≤ 30 = below_31 k x small lt le in
          let top = pow-le-pow_right {n = 2} (omega arith) {i = suc k} {j = 31} (omega arith) in
          let y : (smear x + 1) % 2 ^ 32 ≡ 2 ^ suc k = omega (arith, smear-ones k x small lo hi) in
          rw (is_pow-false k x small lt hi, y)
            (record {
              exponent = suc k;
              power = refl;
              covers = omega arith;
              tight = omega (arith, pow-suc 2 k);
              small = omega arith;
            })
    ]
