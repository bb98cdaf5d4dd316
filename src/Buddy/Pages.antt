-- ===== src/Buddy/Pages.antt =====
-- `alloc_page_buddy` and `free_page_buddy`: which pages they hand out and take back.
use native.Mathlib.Nat.{pow-suc, one-le-pow, mul-div_cancel_left}
use atlos.Base.{
  ℕ, zero, suc, ◌+◌, ◌-◌, ◌*◌, ◌^◌, ◌≤◌, ◌<◌, ◌≡◌, refl, ◌≢◌, arith, ◌⊎◌, inl, inr, update, ap,
  Option, none, some, update_self,
}
use atlos.Pmm.{next_pow_of_2}
use atlos.Pmm.Pow.{next_pow-pow}
use atlos.Buddy.{
  Buddy, find_buddy_slot, page_of, index_of, alloc_page_buddy, free_page_buddy,
  fix_parent_buddy_size,
}
use atlos.Buddy.Node.{at}
use atlos.Buddy.Tree.{IsTree}
use atlos.Buddy.Change.{changed, FullHalves, take-IsTree, give-IsTree}
use atlos.Buddy.Find.{NoPhantom, Found, find_buddy_slot-Found, size2level_lem, index2level_lem}

pub page_of-at :
    (bd : Buddy) (j o : ℕ)
    → bd.level < 32
    → j ≤ bd.level
    → o < 2 ^ (bd.level - j)
    → page_of bd (at (bd.level - j) o) ≡ 2 ^ j * o
unfolding page_of
page_of-at bd j o dd jd ho =
    let pos = one-le-pow (bd.level - j) 2 (omega arith) in
    let e : bd.level - (bd.level - j) ≡ j = omega arith in
    let off : at (bd.level - j) o + 1 - 2 ^ (bd.level - j) ≡ o = omega arith in
    rw (index2level_lem (bd.level - j) o (omega arith) ho, e, off) refl

-- The page number of a block leads `free_page_buddy` back to the block's element.
pub index_of-page_of :
    (bd : Buddy) (j o : ℕ)
    → bd.level < 32
    → j ≤ bd.level
    → o < 2 ^ (bd.level - j)
    → index_of bd (page_of bd (at (bd.level - j) o)) (2 ^ j) ≡ at (bd.level - j) o
unfolding index_of
index_of-page_of bd j o dd jd ho =
    rw (page_of-at bd j o dd jd ho, size2level_lem j (omega arith))
      (ap (λ t. 2 ^ (bd.level - j) - 1 + t) (mul-div_cancel_left o (one-le-pow j 2 (omega arith))))

-- What an allocation of `2 ^ j` pages, less than the whole pool, hands out: the block number `o` of
-- that size, which was free, with the tree kept.
pub record Block (bd : Buddy) (j : ℕ) (run : Option (Option ℕ × Buddy)) : Type 0 where
  pub offset : ℕ
  pub inside : offset < 2 ^ (bd.level - j)
  pub free : bd.elem_size (at (bd.level - j) offset) ≡ 2 ^ j
  pub after : ℕ → ℕ
  pub written : after ≡ changed bd.elem_size (bd.level - j) offset 0
  pub tree : IsTree bd.level after
  pub result : run ≡ some (some (2 ^ j * offset), record bd { elem_size = after })

module _ (bd : Buddy) (n s i : ℕ) (m : ℕ → ℕ) where
  -- `alloc_page_buddy` after a search that has found an element, and after one that has not.
  run_found :
      n ≢ 0
      → next_pow_of_2 n ≡ s
      → find_buddy_slot bd s ≡ some (some i, m)
      → 0 < i
      → alloc_page_buddy bd n
        ≡ some (some (page_of (record bd { elem_size = m }) i), record bd { elem_size = m })
  unfolding alloc_page_buddy
  run_found nz e f pos = ground (arith, ap (find_buddy_slot bd) e)

  run_root :
      n ≢ 0
      → next_pow_of_2 n ≡ s
      → find_buddy_slot bd s ≡ some (some 0, m)
      → alloc_page_buddy bd n ≡ some (none, record bd { elem_size = m })
  unfolding alloc_page_buddy
  run_root nz e f = ground (arith, ap (find_buddy_slot bd) e)

  run_none :
      n ≢ 0
      → next_pow_of_2 n ≡ s
      → find_buddy_slot bd s ≡ some (none, m)
      → alloc_page_buddy bd n ≡ some (none, record bd { elem_size = m })
  unfolding alloc_page_buddy
  run_none nz e f = ground (arith, ap (find_buddy_slot bd) e)

module _ (bd : Buddy) (n j : ℕ) where
  Found-Block :
      IsTree bd.level bd.elem_size
      → bd.level < 32
      → j < bd.level
      → n ≢ 0
      → next_pow_of_2 n ≡ 2 ^ j
      → Found bd.level j bd.elem_size (find_buddy_slot bd (2 ^ j))
      → Block bd j (alloc_page_buddy bd n)
  Found-Block t dd jd nz e f =
      let l = bd.level - j in
      let pos : 0 < at l f.offset = omega (arith, two_le_pow (bd.level - j) (omega arith)) in
      let back : bd.level - l ≡ j = omega arith in
      let place =
        page_of-at (record bd { elem_size = changed bd.elem_size l f.offset 0 }) j f.offset dd
          (omega arith) f.inside in
      record {
        offset = f.offset;
        inside = f.inside;
        free = f.free;
        after = changed bd.elem_size l f.offset 0;
        written = refl;
        tree =
            take-IsTree bd.level bd.elem_size l f.offset t (omega arith) f.inside (rw back f.free);
        result =
            rw
              (
                run_found bd n (2 ^ j) (at l f.offset) (changed bd.elem_size l f.offset 0) nz e
                    f.result pos,
                place,
              )
              refl;
      }
    where
      two_le_pow : (k : ℕ) → 0 < k → 2 ≤ 2 ^ k
      two_le_pow zero h = absurd (omega arith)
      two_le_pow (suc k) h = omega (arith, pow-suc 2 k, one-le-pow k 2)

  -- In a tree without phantoms, a request whose size, rounded up to a power of two `2 ^ j`, is
  -- smaller than the pool gets a free block of that size, and the tree is kept, if the root shows
  -- that many pages; if it does not, the request fails and nothing changes.
  pub alloc_page-Block :
      IsTree bd.level bd.elem_size
      → NoPhantom bd.level bd.elem_size
      → bd.level < 32
      → j < bd.level
      → n ≢ 0
      → next_pow_of_2 n ≡ 2 ^ j
      → ((2 ^ j ≤ bd.elem_size 0) × Block bd j (alloc_page_buddy bd n))
        ⊎ ((bd.elem_size 0 < 2 ^ j) × (alloc_page_buddy bd n ≡ some (none, bd)))
  alloc_page-Block t ok dd jd nz e = elim (find_buddy_slot-Found bd j t ok dd (omega arith)) [
    | inl (le, f) ↦ inl (le, Found-Block t dd jd nz e f)
    | inr (lt, none_left) ↦ inr (lt, run_none bd n (2 ^ j) 0 bd.elem_size nz e none_left)
  ]

module _ (bd : Buddy) (n : ℕ) where
  -- A request for the whole pool, when all of it is free, is answered by NULL all the same, and
  -- leaves a pool with no page to hand out.
  pub alloc_page_whole :
      IsTree bd.level bd.elem_size
      → NoPhantom bd.level bd.elem_size
      → bd.level < 32
      → n ≢ 0
      → next_pow_of_2 n ≡ 2 ^ bd.level
      → bd.elem_size 0 ≡ 2 ^ bd.level
      → (after : ℕ → ℕ) × (alloc_page_buddy bd n ≡ some (none, record bd { elem_size = after }))
        × (after 0 ≡ 0)
  unfolding changed fix_parent_buddy_size
  alloc_page_whole t ok dd nz e full = elim (find_buddy_slot-Found bd bd.level t ok dd dd) [
    | inl (le, f) ↦
        let top : bd.level - bd.level ≡ 0 = omega arith in
        let o : f.offset ≡ 0 = omega (arith, f.inside, ap (λ t. 2 ^ t) top) in
        let r : find_buddy_slot bd (2 ^ bd.level) ≡ some (some 0, changed bd.elem_size 0 0 0) =
          rw (top, o) at f.result in
        (
          changed bd.elem_size 0 0 0,
          run_root bd n (2 ^ bd.level) 0 _ nz e r,
          update_self bd.elem_size 0 0,
        )
    | inr (lt, no_slot) ↦ absurd (omega arith)
  ]

free_run :
    (bd : Buddy) (n page s i : ℕ)
    → next_pow_of_2 n ≡ s
    → next_pow_of_2 s ≡ s
    → index_of bd page s ≡ i
    → bd.elem_size i ≡ 0
    → free_page_buddy bd page n
      ≡ some (record bd { elem_size = fix_parent_buddy_size (update bd.elem_size i s) i })
unfolding free_page_buddy
free_run bd n page s i e e' at_i z = rw (e, at_i, e', z) refl

-- Freeing a block of `2 ^ j` pages that was handed out whole marks exactly its element free again,
-- walks up from it and keeps the tree; `n` is the size that was asked for.
pub free_page-IsTree :
    (bd : Buddy) (n j o : ℕ)
    → IsTree bd.level bd.elem_size
    → bd.level < 32
    → j ≤ bd.level
    → o < 2 ^ (bd.level - j)
    → next_pow_of_2 n ≡ 2 ^ j
    → bd.elem_size (at (bd.level - j) o) ≡ 0
    → (0 < j → FullHalves bd.level bd.elem_size (bd.level - j) o)
    → (free_page_buddy bd (2 ^ j * o) n
        ≡ some (record bd { elem_size = changed bd.elem_size (bd.level - j) o (2 ^ j) }))
      × IsTree bd.level (changed bd.elem_size (bd.level - j) o (2 ^ j))
unfolding changed
free_page-IsTree bd n j o t dd jd ho e zero_there halves =
    let back : bd.level - (bd.level - j) ≡ j = omega arith in
    let there = index_of-page_of bd j o dd jd ho in
    let tree =
      give-IsTree bd.level bd.elem_size (bd.level - j) o t (omega arith) ho
        (λ lt. halves (omega arith)) in
    (
      free_run bd n (2 ^ j * o) (2 ^ j) (at (bd.level - j) o) e (next_pow-pow j (omega arith))
          (rw (page_of-at bd j o dd jd ho) at there) zero_there,
      rw back at tree,
    )
