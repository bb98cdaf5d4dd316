-- ===== src/Kmem/Tests.antt =====
-- A run of `kalloc_pages` on a pool of eight pages from page 100 on.
use atlos.Base.{ℕ, ◌^◌, ◌≡◌, refl, ◌<◌, ◌≤◌, ◌⊎◌, arith, none, some}
use atlos.Pmm.{next_pow_of_2}
use atlos.Buddy.Init.{built, built-IsTree, built-NoPhantom}
use atlos.Kmem.{Pool, kalloc_pages}
use atlos.Kmem.Blocks.{Granted, kalloc_pages-Granted}

abbrev pool_of : (ℕ → ℕ) → Pool
pool_of elems = record {
  bd = record { elem_size = elems; size = 8; level = 3 };
  bd_size = λ i. 0;
  flag = λ i. 0;
  slab = λ i. 0;
}

three_is_four : next_pow_of_2 3 ≡ 2 ^ 2
unfolding next_pow_of_2
three_is_four = refl

kalloc_pages-Granted_example :
    ((4 ≤ built 3 0) × ((o : ℕ) × Granted 100 (pool_of (built 3)) 3 2 o))
    ⊎ ((built 3 0 < 4) × (kalloc_pages 100 3 (pool_of (built 3)) ≡ some (none, pool_of (built 3))))
kalloc_pages-Granted_example =
    kalloc_pages-Granted 100 (pool_of (built 3)) 3 2 (built-IsTree 3) (built-NoPhantom 3)
      (omega arith) (omega arith) (omega arith) three_is_four
