-- ===== src/Pmm/Round.antt =====
-- Rounding to a power of two, and the address arithmetic of pages and page tables.
use native.Mathlib.Nat.{pow-suc, one-le-pow}
use mathlib.Core.Path.{ap₂}
use atlos.Base.{
  ℕ, zero, suc, ◌+◌, ◌-◌, ◌*◌, ◌/◌, ◌%◌, ◌^◌, ◌≤◌, ◌<◌, ◌≡◌, arith, bit_and, ap, bit_and_halves,
  and_all_ones, all_zero, bit-bit_and, bit-zero,
}
use atlos.Pmm.{
  kernbase, round_down, round_up, page_size, page2kpaddr, page2kvaddr, kpaddr2page, kvaddr2page,
  pde_ptr, pte_ptr,
}

-- `y` is the largest multiple of `n` that is not above `x`.
pub record IsFloor (n x y : ℕ) : Type 0 where
  pub quotient : ℕ
  pub multiple : y ≡ quotient * n
  pub below : y ≤ x
  pub tight : x < y + n

half_mask : (k n : ℕ) → (2 ^ suc n - 2 ^ suc k) / 2 ≡ 2 ^ n - 2 ^ k
half_mask k n = omega (arith, pow-suc 2 n, pow-suc 2 k)

-- A mask that clears the low `k` places of an `n`-place number takes it down to a multiple.
and_high : (k n x : ℕ) → k ≤ n → x < 2 ^ n → IsFloor (2 ^ k) x (bit_and x (2 ^ n - 2 ^ k))
and_high zero n x le h =
    let e = and_all_ones n x h in
    record { quotient = x; multiple = omega arith; below = omega arith; tight = omega arith }
and_high (suc k) zero x le h = absurd (omega arith)
and_high (suc k) (suc n) x le h =
    let ih = and_high k n (x / 2) (omega arith) (omega (arith, pow-suc 2 n)) in
    let e : bit_and x (2 ^ suc n - 2 ^ suc k) ≡ 2 * bit_and (x / 2) (2 ^ n - 2 ^ k) = omega (
      arith,
      bit_and_halves x (2 ^ suc n - 2 ^ suc k),
      ap (λ t. bit_and (x / 2) t) (half_mask k n),
      pow-suc 2 n,
      pow-suc 2 k,
    ) in
    record {
      quotient = ih.quotient;
      multiple = omega (arith, e, ih.multiple, ap (λ t. ih.quotient * t) (pow-suc 2 k));
      below = omega (arith, e, ih.below);
      tight = omega (arith, e, ih.tight, pow-suc 2 k);
    }

-- `ROUNDDOWN(x, 2 ^ k)` of a 32-bit word is the largest multiple of `2 ^ k` that is not above it.
pub round_down-IsFloor : (k x : ℕ) → k ≤ 32 → x < 2 ^ 32 → IsFloor (2 ^ k) x (round_down x (2 ^ k))
unfolding round_down
round_down-IsFloor k x le h = and_high k 32 x le h

-- `y` is the smallest multiple of `n` that is not below `x`.
pub record IsCeil (n x y : ℕ) : Type 0 where
  pub quotient : ℕ
  pub multiple : y ≡ quotient * n
  pub above : x ≤ y
  pub tight : y < x + n

-- `ROUNDUP(x, 2 ^ k)` is the smallest multiple of `2 ^ k` that is not below the word `x`, where
-- adding `2 ^ k - 1` does not overflow 32 bits.
pub round_up-IsCeil :
    (k x : ℕ) → k ≤ 32 → x + (2 ^ k - 1) < 2 ^ 32 → IsCeil (2 ^ k) x (round_up x (2 ^ k))
unfolding round_up
round_up-IsCeil k x le h =
    let pos = one-le-pow k 2 (omega arith) in
    let e : (x + (2 ^ k - 1)) % 2 ^ 32 ≡ x + (2 ^ k - 1) = omega arith in
    let f = round_down-IsFloor k (x + (2 ^ k - 1)) le h in
    rw e (record {
      quotient = f.quotient;
      multiple = f.multiple;
      above = omega (arith, f.tight);
      tight = omega (arith, f.below);
    })

pub page2kvaddr_lem : (page : ℕ) → page < 2 ^ 18 → page2kvaddr page ≡ page * 2 ^ 12 + kernbase
unfolding page2kvaddr page2kpaddr
page2kvaddr_lem page small = omega arith

-- For a page below `2 ^ 18`, every address of the page, virtual or physical, leads back to it.
pub kvaddr2page-page2kvaddr :
    (page off : ℕ)
    → page < 2 ^ 18
    → off < page_size
    → (kvaddr2page (page2kvaddr page + off) ≡ page) × (kpaddr2page (page2kpaddr page + off) ≡ page)
unfolding kvaddr2page page2kvaddr kpaddr2page page2kpaddr
kvaddr2page-page2kvaddr page off small h = omega arith

mul_one : (q : ℕ) → q * 1 + 0 ≡ q
mul_one q = omega arith

-- `x & (2 ^ k - 1)` is what `x` leaves over at the division by `2 ^ k`.
pub record IsRest (n x y : ℕ) : Type 0 where
  pub quotient : ℕ
  pub split : x ≡ quotient * n + y
  pub small : y < n

pub and_low : (k x : ℕ) → IsRest (2 ^ k) x (bit_and x (2 ^ k - 1))
and_low zero x =
    let e : bit_and x 0 ≡ 0 = all_zero _ (λ i. omega (arith, bit-bit_and x 0 i, bit-zero i)) in
    record { quotient = x; split = omega arith; small = omega arith }
and_low (suc k) x =
    let ih = and_low k (x / 2) in
    let pos = one-le-pow k 2 (omega arith) in
    let half : (2 ^ suc k - 1) / 2 ≡ 2 ^ k - 1 = omega (arith, pow-suc 2 k) in
    let e : bit_and x (2 ^ suc k - 1) ≡ 2 * bit_and (x / 2) (2 ^ k - 1) + x % 2 =
      omega
        (arith, bit_and_halves x (2 ^ suc k - 1), ap (λ t. bit_and (x / 2) t) half, pow-suc 2 k) in
    record {
      quotient = ih.quotient;
      split = omega (arith, e, ih.split, ap (λ t. ih.quotient * t) (pow-suc 2 k));
      small = omega (arith, e, ih.small, pow-suc 2 k);
    }

m_one : (m : ℕ) → m * 1 ≡ m
m_one m = omega arith

-- A mask with `k` low zeros works on the quotient.
and_shifted : (k m q r : ℕ) → r < 2 ^ k → bit_and (q * 2 ^ k + r) (m * 2 ^ k) ≡ bit_and q m * 2 ^ k
and_shifted zero m q r h =
    let e : r ≡ 0 = omega arith in rw e (omega (arith, ap₂ bit_and (mul_one q) (m_one m)))
and_shifted (suc k) m q r h =
    let halves : (q * 2 ^ suc k + r) / 2 ≡ q * 2 ^ k + r / 2 =
      omega (arith, ap (λ t. q * t) (pow-suc 2 k)) in
    let mask : m * 2 ^ suc k / 2 ≡ m * 2 ^ k = omega (arith, ap (λ t. m * t) (pow-suc 2 k)) in
    omega (
      arith,
      bit_and_halves (q * 2 ^ suc k + r) (m * 2 ^ suc k),
      ap₂ bit_and halves mask,
      and_shifted k m q (r / 2) (omega (arith, pow-suc 2 k)),
      ap (λ t. m * t) (pow-suc 2 k),
      ap (λ t. bit_and q m * t) (pow-suc 2 k),
    )

low_field : (x : ℕ) → bit_and x 0x003ff000 ≡ x / 2 ^ 12 % 2 ^ 10 * 2 ^ 12
low_field x =
    let f = and_low 10 (x / 2 ^ 12) in
    let e : x ≡ x / 2 ^ 12 * 2 ^ 12 + x % 2 ^ 12 = omega arith in
    omega (
      arith,
      f.split,
      f.small,
      and_shifted 12 0x3ff (x / 2 ^ 12) (x % 2 ^ 12) (omega arith),
      ap (λ t. bit_and t 0x003ff000) e,
    )

high_field : (x : ℕ) → x < 2 ^ 32 → bit_and x 0xffc00000 ≡ x / 2 ^ 22 * 2 ^ 22
high_field x h =
    let f = and_high 22 32 x (omega arith) h in omega (arith, f.multiple, f.below, f.tight)

-- The self-mapped page tables: the directory entry of a 32-bit address is the entry number
-- `addr >> 22` of the page at 0xfffff000, and its table entry is the entry number `addr >> 12` of
-- the four megabytes at 0xffc00000, so that both lie in that window.
pub page_table_entries :
    (addr : ℕ)
    → addr < 2 ^ 32
    → (pde_ptr addr ≡ 0xfffff000 + 4 * (addr / 2 ^ 22))
      × (pte_ptr addr ≡ 0xffc00000 + 4 * (addr / 2 ^ 12))
unfolding pde_ptr pte_ptr
page_table_entries addr h = omega (arith, low_field addr, high_field addr h)
