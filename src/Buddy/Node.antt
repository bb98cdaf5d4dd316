-- ===== src/Buddy/Node.antt =====
-- The tree in the array: the element at a level and an offset, its parent, children and place.
use native.Mathlib.Nat.{pow-suc, one-le-pow, pow-le-pow_right}
use native.Mathlib.Decide.{dec_lt}
use atlos.Base.{ℕ, suc, ◌+◌, ◌-◌, ◌*◌, ◌/◌, ◌^◌, ◌≤◌, ◌<◌, ◌≡◌, arith}
use atlos.Buddy.{buddy_parent, buddy_left, buddy_right}

-- The index of the element `o` of level `l`.
abbrev pub at : ℕ → ℕ → ℕ
at l o = 2 ^ l - 1 + o

pub parent_at : (l o : ℕ) → o < 2 ^ suc l → buddy_parent (at (suc l) o) ≡ at l (o / 2)
parent_at l o h = omega (arith, pow-suc 2 l, one-le-pow l 2)

pub left_at : (l o : ℕ) → buddy_left (at l o) ≡ at (suc l) (2 * o)
left_at l o = omega (arith, pow-suc 2 l, one-le-pow l 2)

pub right_at : (l o : ℕ) → buddy_right (at l o) ≡ at (suc l) (2 * o + 1)
right_at l o = omega (arith, pow-suc 2 l, one-le-pow l 2)

-- Levels do not overlap.
pub at_lt : (l o k p : ℕ) → o < 2 ^ l → l < k → at l o < at k p
at_lt l o k p h lt = omega (
  arith,
  pow-suc 2 l,
  one-le-pow l 2,
  pow-le-pow_right {n = 2} (omega arith) {i = suc l} {j = k} lt,
)

pub at_level : (l o k p : ℕ) → o < 2 ^ l → p < 2 ^ k → at l o ≡ at k p → l ≡ k
at_level l o k p ho hp e = elim (dec_lt l k) [
  | yes lt ↦ absurd (omega (arith, at_lt l o k p ho lt))
  | no ge ↦ elim (dec_lt k l) [
    | yes lt ↦ absurd (omega (arith, at_lt k p l o hp lt))
    | no ge' ↦ omega arith
  ]
]

pub at_inj : (l o k p : ℕ) → o < 2 ^ l → p < 2 ^ k → at l o ≡ at k p → (l ≡ k) × (o ≡ p)
at_inj l o k p ho hp e =
    let same = at_level l o k p ho hp e in
    (same, let e' : at k o ≡ at k p = rw same at e in omega (arith, one-le-pow k 2))

pub half_lt : (l o : ℕ) → o < 2 ^ suc l → o / 2 < 2 ^ l
half_lt l o h = omega (arith, pow-suc 2 l)

pub child_lt : (l o b : ℕ) → o < 2 ^ l → b ≤ 1 → 2 * o + b < 2 ^ suc l
child_lt l o b h hb = omega (arith, pow-suc 2 l)
