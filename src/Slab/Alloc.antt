-- ===== src/Slab/Alloc.antt =====
-- kern/mm/slab.c: slabs out of pages, `slab_alloc` and `slab_free`, and `kmalloc` and `kfree` of
-- kern/mm/pmm.c.
pub mod Layout
pub mod Init
pub mod Choose
pub mod Sizes
pub mod Stack
mod Tests
use atlos.Base.{
  ℕ, zero, suc, ◌+◌, ◌-◌, ◌*◌, ◌/◌, ◌%◌, ◌^◌, Bool, true, false, ◌&&◌, not, Option, none, some,
  List, [], ◌∷◌, ltb, leb, ◌==◌, get_or, if◌then◌else◌, update, bit_or, bit_and,
}
use atlos.Pmm.{
  is_pow_of_2, next_pow_of_2, page2kvaddr, kvaddr2page, round_up, page_shift, page_size,
}
use atlos.Dlist.{Ptr, null, list_init, list_empty, list_push_back, load_next}
use atlos.Kmem.{Pool, kalloc_pages}
use atlos.Slab.{
  Slabs, Run, pure, ◌>>=◌, ◌>>◌, on_links, assert, when, slab_pages, slab_min_shift, num_cached,
  slab_obj_min_size, slab_t_in_slab_index, tag_of, tag2slab, full, empty, partial, size2index,
  fetch_obj_from_slab, return_obj_to_slab, try_free_empty_slabs,
}

-- `obj_list` of `n` objects, from the `i`-th on.
pub init_list : ℕ → ℕ → (ℕ → ℕ) → ℕ → ℕ
init_list zero i m = m
init_list (suc n) i m = init_list n (i + 1) (update m i (i + 1))

pub empty_slab_t_init : Ptr → Ptr → ℕ → Slabs → Slabs
unfolding init_list
empty_slab_t_init cache slab objs s = record s {
  free = update s.free slab 0;
  total_objs = update s.total_objs slab objs;
  free_objs = update s.free_objs slab objs;
  obj_order = update s.obj_order slab (s.cache_order cache);
  obj_list = update s.obj_list slab (init_list objs 0 (s.obj_list slab));
}

-- The `slab_t` in front of `objs` objects of `obj_size` bytes; `sizeof(slab_t)` is 32.
abbrev pub slab_t_len : ℕ → ℕ
slab_t_len objs = 32 + (objs - 1) * 4

abbrev pub objs_of : ℕ → ℕ → ℕ
objs_of npages obj_size = npages * 2 ^ page_shift / obj_size

-- The number of objects where the `slab_t` stands in the pages of the slab.
pub resize_objs : ℕ → ℕ → ℕ
resize_objs npages obj_size =
    let objs = objs_of npages obj_size in
    let len = slab_t_len objs in
    let header = len / obj_size + (if len % obj_size == 0 then 0 else 1) in
    objs - header + header * 4 / (4 + obj_size)

-- The marks on the `n` pages of a slab, from `page` on.
pub mark_pages : ℕ → ℕ → Ptr → Pool → Pool
mark_pages zero page slab pool = pool
mark_pages (suc n) page slab pool = mark_pages n (page + 1) slab (record pool {
  flag = update pool.flag page (bit_or (pool.flag page) 2);
  slab = update pool.slab page slab;
})

-- The end of `fill_empty_slot`: the marks and the place at the end of the empty list.
add_slab : Ptr → ℕ → ℕ → Ptr → Run ℕ
unfolding mark_pages
add_slab cache page npages slab = do
  λ s. some (tt, record s { pool = mark_pages npages page slab s.pool })
  on_links (list_push_back (empty cache) (tag_of slab))
  pure 0

-- The slab of the first element of a list.
first : Ptr → Run Ptr
first l = do tag ← on_links (load_next l); pure (tag2slab tag)

-- The choice of a slab in `slab_alloc`, with `fill` for `fill_empty_slot(index)`; NULL is its
-- failure. `none` says that the rounds of `retry` have run out.
pub find_slab : (fill : Run ℕ) → ℕ → Ptr → Run Ptr
unfolding first
find_slab fill zero cache s = none
find_slab fill (suc r) cache s =
    let again = find_slab fill r cache in
    let refill = fill >>= λ failed. if failed == 0 then again else pure null in
    (do
      no_partial ← on_links (list_empty (partial cache))
      no_empty ← on_links (list_empty (empty cache))
      if no_partial
          then (if no_empty then refill else first (empty cache))
          else first (partial cache))
      s

-- The index of the cache for `n` bytes.
pub index_for : ℕ → ℕ
index_for n =
    let n' = if is_pow_of_2 n then n else next_pow_of_2 n in
    let n'' = if ltb n' slab_obj_min_size then slab_obj_min_size else n' in
    (size2index n'' + 2 ^ 32 - slab_min_shift) % 2 ^ 32

-- `mcached`, an array of caches of 64 bytes.
module _ (bd_page_off mcached : ℕ) where
  abbrev pub cache_at : ℕ → Ptr
  cache_at index = mcached + 64 * index

  -- `fill_empty_slot`, with the result of `kalloc_pages` and with `slab_alloc` as `alloc`.
  fill_with : (alloc : ℕ → Run ℕ) → ℕ → Option ℕ → Run ℕ
  unfolding empty_slab_t_init add_slab resize_objs
  fill_with alloc index none s = some (1, s)
  fill_with alloc index (some page) s =
      let cache = cache_at index in
      let npages = get_or slab_pages index 0 in
      let obj_size = 2 ^ s.cache_order cache in
      let objs = objs_of npages obj_size in
      let buddy_buff = page2kvaddr page in
      let objs' = resize_objs npages obj_size in
      let align_off = round_up (slab_t_len objs') obj_size in
      if ltb slab_t_in_slab_index index
      then (do
        slab ← alloc (slab_t_len objs)
        if slab == 0 then pure 1 else do
          λ t. some (tt, empty_slab_t_init cache slab objs t)
          λ t. some (tt, record t { buff = update t.buff slab buddy_buff })
          add_slab cache (kvaddr2page buddy_buff) npages slab)
          s
      else (do
        λ t. some (tt, empty_slab_t_init cache buddy_buff objs' t)
        λ t.
            some
              (tt, record t { buff = update t.buff buddy_buff ((buddy_buff + align_off) % 2 ^ 32) })
        add_slab cache (kvaddr2page buddy_buff) npages buddy_buff)
          s

  -- `kalloc_pages` on the pool of the state.
  get_pages : ℕ → Run (Option ℕ)
  get_pages n s = elim (kalloc_pages bd_page_off n s.pool) [
    | none ↦ none
    | some (page, pool') ↦ some (page, record s { pool = pool' })
  ]

  pub fill_empty_slot : (alloc : ℕ → Run ℕ) → ℕ → Run ℕ
  unfolding fill_with get_pages
  fill_empty_slot alloc index = do
    no_empty ← on_links (list_empty (empty (cache_at index)))
    no_partial ← on_links (list_empty (partial (cache_at index)))
    assert (no_empty && no_partial)
    page ← get_pages (get_or slab_pages index 0)
    fill_with alloc index page

  -- `slab_alloc`: the address, or 0. It calls itself for the `slab_t` of a slab of large objects;
  -- the fuel bounds the depth of these calls.
  pub slab_alloc : ℕ → ℕ → Run ℕ
  unfolding index_for find_slab fill_empty_slot
  slab_alloc zero n s = none
  slab_alloc (suc f) n s =
      let inner = slab_alloc f in
      let index = index_for n in
      let cache = cache_at index in
      if n == 0
      then some (0, s)
      else (do
        slab ← find_slab (fill_empty_slot inner index) 2 cache
        if slab == null then pure 0 else fetch_obj_from_slab cache slab)
          s

  pub slab_free : ℕ → Run (Unit {0})
  slab_free addr s =
      let page = kvaddr2page addr in
      let slab = s.pool.slab page in
      let index = (s.obj_order slab + 2 ^ 32 - slab_min_shift) % 2 ^ 32 in
      if addr == 0
      then some (tt, s)
      else (do
        assert (not (bit_and (s.pool.flag page) 2 == 0))
        assert (ltb (s.free_objs slab) (s.total_objs slab))
        return_obj_to_slab bd_page_off addr slab (cache_at index))
          s

  -- The loop of `slab_init`, from the `i`-th cache on.
  init_caches : ℕ → ℕ → Run (Unit {0})
  init_caches zero i = pure tt
  init_caches (suc n) i = do
    on_links (list_init (empty (cache_at i)))
    on_links (list_init (full (cache_at i)))
    on_links (list_init (partial (cache_at i)))
    λ s.
        some (tt, record s { cache_order = update s.cache_order (cache_at i) (slab_min_shift + i) })
    init_caches n (i + 1)

  -- `slab_init` without its test.
  pub slab_init : Run (Unit {0})
  unfolding init_caches
  slab_init = init_caches num_cached 0

  release_caches : ℕ → ℕ → ℕ → Run (Unit {0})
  release_caches flag zero i = pure tt
  release_caches flag (suc n) i = do
    try_free_empty_slabs bd_page_off (cache_at i) flag
    release_caches flag n (i + 1)

  pub slab_try_release_cache : Run (Unit {0})
  unfolding release_caches
  slab_try_release_cache = release_caches 2 num_cached 0

  pub slab_release_cache : Run (Unit {0})
  unfolding release_caches
  slab_release_cache = release_caches 4 num_cached 0

  -- `kmalloc`, where `none` is also the panic on a size that is too large.
  pub kmalloc : ℕ → ℕ → Run ℕ
  unfolding slab_alloc
  kmalloc f n s = let r = slab_alloc f n s in if ltb (page_size * 2) n then none else r

  pub kfree : ℕ → Run (Unit {0})
  unfolding slab_free
  kfree p = slab_free p
