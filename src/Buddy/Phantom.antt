-- ===== src/Buddy/Phantom.antt =====
-- Two equal halves that are not free as a whole add up all the same in `fix_parent_buddy_size`. What
-- `find_buddy_slot` makes of such a phantom block; and that it always ends.
use native.Mathlib.Nat.{pow-suc, one-le-pow, pow-le-pow_right}
use native.Mathlib.Decide.{dec_le}
use atlos.Base.{
  ℕ, zero, suc, ◌+◌, ◌-◌, ◌*◌, ◌^◌, ◌≤◌, ◌<◌, ◌≡◌, refl, ◌≢◌, arith, inl, inr, ℕ-eq_cases, ap, ◌∙◌,
  some, IsJust, update,
}
use atlos.Buddy.{
  Buddy, combine, find_loop, find_buddy_slot, size2level, buddy_left, buddy_right,
  fix_parent_buddy_size,
}
use atlos.Buddy.Node.{at, left_at, right_at, child_lt}
use atlos.Buddy.Tree.{IsTree, IsSize}
use atlos.Buddy.Change.{changed}
use atlos.Buddy.Find.{size2level_lem, step_found, step_fail, step_left, step_right, step_again}

pow_lt_inv : (a b : ℕ) → 2 ^ a < 2 ^ b → a < b
pow_lt_inv a b h = elim (dec_le b a) [
  | yes le ↦ absurd (omega (arith, pow-le-pow_right {n = 2} (omega arith) le))
  | no gt ↦ omega arith
]

-- A parent that shows `2 ^ j` pages of which neither half has so many shows exactly `2 ^ j`.
phantom_eq :
    (a b j : ℕ) → IsSize a → a < 2 ^ j → b < 2 ^ j → 2 ^ j ≤ combine a b → combine a b ≡ 2 ^ j
unfolding combine
phantom_eq a b j (inl z) la lb le = ground arith
phantom_eq a b j (inr (e, q)) la lb le =
    let lt : e < j = pow_lt_inv e j (omega arith) in
    let up = pow-le-pow_right {n = 2} (omega arith) {i = suc e} {j = j} lt in
    ground (arith, pow-suc 2 e)

module _ (bd : Buddy) (j : ℕ) where
  -- Once no half is large enough the search stays at the element until the level comes.
  stay-found :
      (f i c : ℕ)
      → j < 32
      → bd.elem_size i ≡ 2 ^ j
      → bd.elem_size (buddy_left i) < 2 ^ j
      → bd.elem_size (buddy_right i) < 2 ^ j
      → c + j ≤ bd.level
      → bd.level < j + c + f
      → find_loop f bd (2 ^ j) i c
        ≡ some (some i, fix_parent_buddy_size (update bd.elem_size i 0) i)
  stay-found zero i c small e l r le fuel = absurd (omega arith)
  stay-found (suc f) i c small e l r le fuel = elim (ℕ-eq_cases (c + j) bd.level) [
    | inl here ↦ step_found bd (2 ^ j) f i c e (omega (arith, size2level_lem j small))
    | inr ne ↦
        step_again bd (2 ^ j) f i c (omega (arith, size2level_lem j small)) (omega arith) l r
        ∙ stay-found f i (c + 1) small e l r (omega arith) (omega arith)
  ]

  -- At a phantom block, a parent on level `k` above the level of the request that shows `2 ^ j`
  -- pages while neither half has a block of them, the search takes the parent itself: an element
  -- that stands for a larger block, which is not free.
  pub find_phantom :
      (k p : ℕ)
      → j < 32
      → k + j < bd.level
      → bd.elem_size (at k p) ≡ 2 ^ j
      → bd.elem_size (at (suc k) (2 * p)) < 2 ^ j
      → bd.elem_size (at (suc k) (2 * p + 1)) < 2 ^ j
      → find_loop (bd.level + 1) bd (2 ^ j) (at k p) k
        ≡ some (some (at k p), changed bd.elem_size k p 0)
  unfolding changed
  find_phantom k p small lt e l r =
      stay-found (bd.level + 1) (at k p) k small e (rw (left_at k p) l) (rw (right_at k p) r)
        (omega arith) (omega arith)

  -- A parent whose halves are both too small shows, if anything that large, a phantom.
  shown :
      (k p : ℕ)
      → IsTree bd.level bd.elem_size
      → k < bd.level
      → p < 2 ^ k
      → 2 ^ j ≤ bd.elem_size (at k p)
      → bd.elem_size (at (suc k) (2 * p)) < 2 ^ j
      → bd.elem_size (at (suc k) (2 * p + 1)) < 2 ^ j
      → bd.elem_size (at k p) ≡ 2 ^ j
  shown k p t kd hp le l r = elim (t.node k p kd hp) [
    | inl g ↦
        g
        ∙ phantom_eq _ _ j (t.fits (suc k) (2 * p) kd (omega (arith, pow-suc 2 k))).0 l r
            (omega (arith, g))
    | inr h ↦ absurd (omega (arith, h.0, one-le-pow j 2))
  ]

  find-ends :
      (f k p c : ℕ)
      → IsTree bd.level bd.elem_size
      → j < 32
      → k + j ≤ bd.level
      → p < 2 ^ k
      → c ≡ k
      → bd.level < j + k + f
      → IsJust (find_loop f bd (2 ^ j) (at k p) c)
  find-ends zero k p c t small kd hp ce fuel = absurd (omega arith)
  find-ends (suc f) k p c t small kd hp ce fuel = elim (dec_le (2 ^ j) (bd.elem_size (at k p))) [
    | no lt ↦ rw (step_fail bd (2 ^ j) f (at k p) c (omega arith)) tt
    | yes le ↦ elim (ℕ-eq_cases (k + j) bd.level) [
      | inl e ↦
          let n : bd.level - k ≡ j = omega arith in
          let fits = t.fits k p (omega arith) hp in
          rw
            (step_found bd (2 ^ j) f (at k p) c (omega (arith, fits.1, ap (λ t. 2 ^ t) n))
              (omega (arith, size2level_lem j small)))
            tt
      | inr ne ↦
          let off : c + size2level (2 ^ j) ≢ bd.level = omega (arith, size2level_lem j small) in
          let left = left_at k p in
          let right = right_at k p in
          elim (dec_le (2 ^ j) (bd.elem_size (at (suc k) (2 * p)))) [
            | yes l ↦
                rw (step_left bd (2 ^ j) f (at k p) c off le (rw left l), left)
                  (find-ends f (suc k) (2 * p) (c + 1) t small (omega arith)
                    (omega (arith, pow-suc 2 k)) (omega arith) (omega arith))
            | no l ↦ elim (dec_le (2 ^ j) (bd.elem_size (at (suc k) (2 * p + 1)))) [
              | yes r ↦
                  rw
                    (
                      step_right bd (2 ^ j) f (at k p) c off le (rw left (omega arith))
                          (rw right r),
                      right,
                    )
                    (find-ends f (suc k) (2 * p + 1) (c + 1) t small (omega arith)
                      (child_lt k p 1 hp (omega arith)) (omega arith) (omega arith))
              | no r ↦
                  rw
                    (stay-found (suc f) (at k p) c small
                      (shown k p t (omega arith) hp le (omega arith) (omega arith))
                      (rw left (omega arith)) (rw right (omega arith)) (omega arith) (omega arith))
                    tt
            ]
          ]
    ]
  ]

  -- In every well-formed tree, phantoms or not, the search for `2 ^ j` pages ends within the rounds
  -- given, one more than the tree has levels below its root.
  pub find_buddy_slot-ends :
      IsTree bd.level bd.elem_size → j < 32 → j ≤ bd.level → IsJust (find_buddy_slot bd (2 ^ j))
  unfolding find_buddy_slot
  find_buddy_slot-ends t small le =
      find-ends (bd.level + 1) 0 0 0 t small (omega arith) (omega arith) refl (omega arith)
