-- ===== src/Buddy/Find.antt =====
-- `find_buddy_slot` and `buddy_alloc`: which block is found, and that the search ends.
use native.Mathlib.Nat.{pow-suc, one-le-pow, pow-le-pow_right, le_refl, le_trans}
use native.Mathlib.Decide.{dec_le}
use native.Mathlib.Numerals.{add-one}
use atlos.Base.{
  ℕ, zero, suc, ◌+◌, ◌-◌, ◌*◌, ◌/◌, ◌^◌, ◌≤◌, ◌<◌, ◌≡◌, refl, ◌≢◌, arith, ◌⊎◌, inl, inr, update,
  ℕ-eq_cases, ap, Option, none, some, ◌==◌, false, ne→==,
}
use atlos.Buddy.{
  Buddy, shifts, size2level, index2level, find_loop, find_buddy_slot, buddy_left, buddy_right,
  fix_parent_buddy_size,
}
use atlos.Buddy.Node.{at, left_at, right_at, child_lt}
use atlos.Buddy.Tree.{IsTree}
use atlos.Buddy.Change.{changed, full-FullHalves}

-- The shifts of a number count its binary digits.
pub shifts_lem :
    (f j n res : ℕ) → j < f → 2 ^ j ≤ n → n < 2 ^ suc j → shifts f n res ≡ res + (j + 1)
unfolding shifts
shifts_lem zero j n res lt lo hi = absurd (omega arith)
shifts_lem (suc zero) zero n res lt lo hi = ground arith
shifts_lem (suc (suc f)) zero n res lt lo hi = let e : n ≡ 1 = omega arith in rw e refl
shifts_lem (suc f) (suc j) n res lt lo hi =
    let pos = one-le-pow j 2 (omega arith) in
    let ne : (n == 0) ≡ false = ne→== n 0 (omega (arith, pow-suc 2 j)) in
    rw ne (
      omega (
        arith,
        shifts_lem f j (n / 2) (res + 1) (omega arith) (omega (arith, pow-suc 2 j))
            (omega (arith, pow-suc 2 (suc j), pow-suc 2 j)),
      ))

pub size2level_lem : (j : ℕ) → j < 32 → size2level (2 ^ j) ≡ j
unfolding size2level
size2level_lem j lt =
    let pos = one-le-pow j 2 (omega arith) in
    omega (arith, shifts_lem 32 j (2 ^ j) 0 lt (le_refl _) (omega (arith, pow-suc 2 j)))

pub index2level_lem : (l o : ℕ) → l < 32 → o < 2 ^ l → index2level (at l o) ≡ l
unfolding index2level
index2level_lem l o lt h =
    let pos = one-le-pow l 2 (omega arith) in
    omega (arith, shifts_lem 32 l (at l o + 1) 0 lt (omega arith) (omega (arith, pow-suc 2 l)))

-- No parent shows more than a block that one of its halves, or itself as a whole, can give.
abbrev pub NoPhantom : ℕ → (ℕ → ℕ) → Type 0
NoPhantom d m =
    (k p : ℕ)
    → k < d
    → p < 2 ^ k
    → (m (at k p) ≡ 2 ^ (d - k))
      ⊎ (m (at k p) ≤ m (at (suc k) (2 * p)))
      ⊎ (m (at k p) ≤ m (at (suc k) (2 * p + 1)))

-- A block of `2 ^ j` pages that a search from level `k` has found and taken.
pub record Found (d j : ℕ) (m : ℕ → ℕ) (run : Option (Option ℕ × (ℕ → ℕ))) : Type 0 where
  pub offset : ℕ
  pub inside : offset < 2 ^ (d - j)
  pub free : m (at (d - j) offset) ≡ 2 ^ j
  pub result : run ≡ some (some (at (d - j) offset), changed m (d - j) offset 0)

-- The root shows no more than the whole tree.
pub root-le : (d : ℕ) (m : ℕ → ℕ) → IsTree d m → m 0 ≤ 2 ^ d
root-le d m t =
    let e : d - 0 ≡ d = omega arith in rw e at (t.fits 0 0 (omega arith) (omega arith)).1

pub le_level : (d j : ℕ) → 2 ^ j ≤ 2 ^ d → j ≤ d
le_level d j h = elim (dec_le j d) [
  | yes le ↦ le
  | no gt ↦ absurd (
      omega (
        arith,
        pow-suc 2 d,
        one-le-pow d 2,
        pow-le-pow_right {n = 2} (omega arith) {i = suc d} {j = j} (omega arith),
      ))
]

-- The rounds of the search, one for each way that a round goes.
module _ (bd : Buddy) (pages f i c : ℕ) where
  pub step_found :
      bd.elem_size i ≡ pages
      → c + size2level pages ≡ bd.level
      → find_loop (suc f) bd pages i c
        ≡ some (some i, fix_parent_buddy_size (update bd.elem_size i 0) i)
  unfolding find_loop
  step_found e l = ground arith

  pub step_fail :
      bd.elem_size i < pages → find_loop (suc f) bd pages i c ≡ some (none, bd.elem_size)
  unfolding find_loop
  step_fail lt = ground arith

  pub step_left :
      c + size2level pages ≢ bd.level
      → pages ≤ bd.elem_size i
      → pages ≤ bd.elem_size (buddy_left i)
      → find_loop (suc f) bd pages i c ≡ find_loop f bd pages (buddy_left i) (c + 1)
  unfolding find_loop
  step_left l le le' = ground arith

  pub step_right :
      c + size2level pages ≢ bd.level
      → pages ≤ bd.elem_size i
      → bd.elem_size (buddy_left i) < pages
      → pages ≤ bd.elem_size (buddy_right i)
      → find_loop (suc f) bd pages i c ≡ find_loop f bd pages (buddy_right i) (c + 1)
  unfolding find_loop
  step_right l le lt le' = ground arith

  pub step_again :
      c + size2level pages ≢ bd.level
      → pages ≤ bd.elem_size i
      → bd.elem_size (buddy_left i) < pages
      → bd.elem_size (buddy_right i) < pages
      → find_loop (suc f) bd pages i c ≡ find_loop f bd pages i (c + 1)
  unfolding find_loop
  step_again l le lt lt' = ground arith

module _ (bd : Buddy) (j : ℕ) where
  -- On the right level the element is taken.
  find-here :
      (f p c : ℕ)
      → j ≤ bd.level
      → j < 32
      → p < 2 ^ (bd.level - j)
      → c ≡ bd.level - j
      → bd.elem_size (at (bd.level - j) p) ≡ 2 ^ j
      → Found bd.level j bd.elem_size (find_loop (suc f) bd (2 ^ j) (at (bd.level - j) p) c)
  unfolding changed
  find-here f p c jd small hp ce e = record {
    offset = p;
    inside = hp;
    free = e;
    result = step_found bd (2 ^ j) f _ c e (omega (arith, size2level_lem j small));
  }

  -- A half that is large enough for the block: one of the two, for want of a phantom.
  big_half :
      (k p : ℕ)
      → IsTree bd.level bd.elem_size
      → NoPhantom bd.level bd.elem_size
      → k + j < bd.level
      → p < 2 ^ k
      → 2 ^ j ≤ bd.elem_size (at k p)
      → (2 ^ j ≤ bd.elem_size (at (suc k) (2 * p)))
        ⊎ (2 ^ j ≤ bd.elem_size (at (suc k) (2 * p + 1)))
  big_half k p t ok lt hp le = elim (ok k p (omega arith) hp) [
    | inl full ↦
        let h = full-FullHalves bd.level bd.elem_size k p t (omega arith) hp full in
        inl (rw h.0 (pow-le-pow_right {n = 2} (omega arith) (omega arith)))
    | inr (inl l) ↦ inl (omega arith)
    | inr (inr r) ↦ inr (omega arith)
  ]

  pub find-below :
      (f k p c : ℕ)
      → IsTree bd.level bd.elem_size
      → NoPhantom bd.level bd.elem_size
      → j < 32
      → k + j ≤ bd.level
      → p < 2 ^ k
      → c ≡ k
      → 2 ^ j ≤ bd.elem_size (at k p)
      → bd.level < j + k + f
      → Found bd.level j bd.elem_size (find_loop f bd (2 ^ j) (at k p) c)
  find-below zero k p c t ok small kd hp ce le fuel = absurd (omega arith)
  find-below (suc f) k p c t ok small kd hp ce le fuel = elim (ℕ-eq_cases (k + j) bd.level) [
    | inl e ↦
        let k' : k ≡ bd.level - j = omega arith in
        let j' : bd.level - k ≡ j = omega arith in
        let fits = t.fits k p (omega arith) hp in
        rw k' (
          find-here f p c (omega arith) small (rw k' at hp) (omega arith)
            (rw (← k') (omega (arith, fits.1, ap (λ t. 2 ^ t) j'))))
    | inr ne ↦
        let l : c + size2level (2 ^ j) ≢ bd.level = omega (arith, size2level_lem j small) in
        let left = left_at k p in
        let right = right_at k p in
        elim (dec_le (2 ^ j) (bd.elem_size (at (suc k) (2 * p)))) [
          | yes h ↦
              rw (step_left bd (2 ^ j) f (at k p) c l le (rw left h), left)
                (find-below f (suc k) (2 * p) (c + 1) t ok small (omega arith)
                  (omega (arith, pow-suc 2 k)) (omega arith) h (omega arith))
          | no h ↦
              let h' : 2 ^ j ≤ bd.elem_size (at (suc k) (2 * p + 1)) =
                omega (arith, big_half k p t ok (omega arith) hp le) in
              rw
                (
                  step_right bd (2 ^ j) f (at k p) c l le (rw left (omega arith)) (rw right h'),
                  right,
                )
                (find-below f (suc k) (2 * p + 1) (c + 1) t ok small (omega arith)
                  (child_lt k p 1 hp (omega arith)) (omega arith) h' (omega arith))
        ]
  ]

  -- In a tree without phantoms `find_buddy_slot` takes a free block of `2 ^ j` pages if the root
  -- shows that many, and ends; otherwise it fails and changes nothing.
  pub find_buddy_slot-Found :
      IsTree bd.level bd.elem_size
      → NoPhantom bd.level bd.elem_size
      → bd.level < 32
      → j < 32
      → ((2 ^ j ≤ bd.elem_size 0) × Found bd.level j bd.elem_size (find_buddy_slot bd (2 ^ j)))
        ⊎ ((bd.elem_size 0 < 2 ^ j) × (find_buddy_slot bd (2 ^ j) ≡ some (none, bd.elem_size)))
  unfolding find_buddy_slot
  find_buddy_slot-Found t ok dd small = elim (dec_le (2 ^ j) (bd.elem_size 0)) [
    | yes le ↦ inl (
      le,
      rw add-one (
          find-below (suc bd.level) 0 0 0 t ok small
            (omega (arith, le_level bd.level j (le_trans le (root-le bd.level bd.elem_size t))))
            (omega arith) refl le (omega arith)),
    )
    | no gt ↦ inr (omega arith, rw add-one (step_fail bd (2 ^ j) bd.level 0 0 (omega arith)))
  ]
