-- ===== src/Kmem/Blocks.antt =====
-- The pages that `kalloc_pages` hands out and `kfree_pages` takes back.
use atlos.Base.{
  ℕ, ◌+◌, ◌-◌, ◌*◌, ◌%◌, ◌^◌, ◌≤◌, ◌<◌, ◌≡◌, refl, ◌≢◌, ◌⊎◌, inl, inr, none, some, arith, update,
  ne→==,
}
use atlos.Pmm.{next_pow_of_2}
use atlos.Buddy.{alloc_page_buddy}
use atlos.Buddy.Node.{at}
use atlos.Buddy.Tree.{IsTree}
use atlos.Buddy.Change.{changed, FullHalves}
use atlos.Buddy.Find.{NoPhantom}
use atlos.Buddy.Pages.{Block, alloc_page-Block, free_page-IsTree}
use atlos.Kmem.{Pool, kalloc_pages, kfree_pages}

module _ (off : ℕ) (pool : Pool) (n j : ℕ) where
  -- The block number `o` of `2 ^ j` pages is handed out: it was free, and the tree is kept.
  pub record Granted (o : ℕ) : Type 0 where
    pub inside : o < 2 ^ (pool.bd.level - j)
    pub free : pool.bd.elem_size (at (pool.bd.level - j) o) ≡ 2 ^ j
    pub after : ℕ → ℕ
    pub tree : IsTree pool.bd.level after
    pub result :
        kalloc_pages off n pool
        ≡ some (
          some (2 ^ j * o + off),
          record pool {
            bd = record pool.bd { elem_size = after };
            bd_size = update pool.bd_size (2 ^ j * o + off) n;
          },
        )

  kalloc_found : n ≢ 0 → (b : Block pool.bd j (alloc_page_buddy pool.bd n)) → Granted b.offset
  unfolding kalloc_pages
  kalloc_found nz b = record {
    inside = b.inside;
    free = b.free;
    after = b.after;
    tree = b.tree;
    result = rw (ne→== n 0 nz, b.result) refl;
  }

  kalloc_none :
      n ≢ 0
      → alloc_page_buddy pool.bd n ≡ some (none, pool.bd)
      → kalloc_pages off n pool ≡ some (none, pool)
  unfolding kalloc_pages
  kalloc_none nz run = rw (ne→== n 0 nz, run) refl

  -- From a pool without phantoms, `kalloc_pages` of a size that is, rounded up to a power of two
  -- `2 ^ j`, smaller than the pool, hands out the first page of a free block of that size and keeps
  -- the size in it, if the root shows that many pages; if it does not, it returns NULL and nothing
  -- changes.
  pub kalloc_pages-Granted :
      IsTree pool.bd.level pool.bd.elem_size
      → NoPhantom pool.bd.level pool.bd.elem_size
      → pool.bd.level < 32
      → j < pool.bd.level
      → n ≢ 0
      → next_pow_of_2 n ≡ 2 ^ j
      → ((2 ^ j ≤ pool.bd.elem_size 0) × ((o : ℕ) × Granted o))
        ⊎ ((pool.bd.elem_size 0 < 2 ^ j) × (kalloc_pages off n pool ≡ some (none, pool)))
  kalloc_pages-Granted t ok dd jd nz e = elim (alloc_page-Block pool.bd n j t ok dd jd nz e) [
    | inl (le, b) ↦ inl (le, (b.offset, kalloc_found nz b))
    | inr (lt, run) ↦ inr (lt, kalloc_none nz run)
  ]

  -- `kfree_pages` of the first page of a block of `2 ^ j` pages that was handed out whole, with a page
  -- number below 2^32 and the size that was asked for, marks exactly its element free again and
  -- keeps the tree.
  pub kfree_pages-IsTree :
      (o : ℕ)
      → IsTree pool.bd.level pool.bd.elem_size
      → pool.bd.level < 32
      → j ≤ pool.bd.level
      → o < 2 ^ (pool.bd.level - j)
      → 2 ^ j * o + off < 2 ^ 32
      → n ≢ 0
      → next_pow_of_2 n ≡ 2 ^ j
      → pool.bd.elem_size (at (pool.bd.level - j) o) ≡ 0
      → (0 < j → FullHalves pool.bd.level pool.bd.elem_size (pool.bd.level - j) o)
      → (kfree_pages off (2 ^ j * o + off) n pool
          ≡ some (record pool {
            bd = record pool.bd {
              elem_size = changed pool.bd.elem_size (pool.bd.level - j) o (2 ^ j);
            };
          }))
        × IsTree pool.bd.level (changed pool.bd.elem_size (pool.bd.level - j) o (2 ^ j))
  unfolding kfree_pages
  kfree_pages-IsTree o t dd jd ho word nz e taken halves =
      let (run, tree) = free_page-IsTree pool.bd n j o t dd jd ho e taken halves in
      let page = 2 ^ j * o in
      let back : (page + off + 2 ^ 32 - off) % 2 ^ 32 ≡ page = omega (arith, word) in
      (rw (ne→== n 0 nz, back, run) refl, tree)
