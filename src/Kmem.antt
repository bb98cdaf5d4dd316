-- ===== src/Kmem.antt =====
-- kern/mm/pmm.c: pages of the kernel from the buddy allocator. A `page_t *` is its index into
-- `kpages`, and its fields are functions of that index.
pub mod Blocks
mod Tests
use atlos.Base.{ℕ, ◌+◌, ◌-◌, ◌%◌, ◌^◌, Option, none, some, ◌==◌, if◌then◌else◌, update}
use atlos.Buddy.{Buddy, alloc_page_buddy, free_page_buddy}

-- `kern_bd` and the fields of the pages: `bd_size`, `flag` and `slab`.
pub record Pool : Type 0 where
  pub bd : Buddy
  pub bd_size : ℕ → ℕ
  pub flag : ℕ → ℕ
  pub slab : ℕ → ℕ

-- `bd_page_off` is set once, when the pool is laid out.
module _ (bd_page_off : ℕ) where
  -- The page, or `none` for NULL; the outer `none` is a search of the buddy that does not end.
  pub kalloc_pages : ℕ → Pool → Option (Option ℕ × Pool)
  kalloc_pages n pool = if n == 0 then some (none, pool) else elim (alloc_page_buddy pool.bd n) [
    | none ↦ none
    | some (none, bd') ↦ some (none, record pool { bd = bd' })
    | some (some bd_off, bd') ↦
        let page = bd_off + bd_page_off in
        some (some page, record pool { bd = bd'; bd_size = update pool.bd_size page n })
  ]

  -- `none` is a failed assertion. A wrong `n` only prints a warning.
  pub kfree_pages : ℕ → ℕ → Pool → Option Pool
  kfree_pages page n pool =
      let bd_off = (page + 2 ^ 32 - bd_page_off) % 2 ^ 32 in
      if n == 0 then some pool else elim (free_page_buddy pool.bd bd_off n) [
        | none ↦ none
        | some bd' ↦ some (record pool { bd = bd' })
      ]
