-- ===== src/Slab/Alloc/Layout.antt =====
-- What `fill_empty_slot` makes of the pages of a slab whose `slab_t` stands in them.
use atlos.Base.{
  ℕ, zero, suc, ◌+◌, ◌*◌, ◌%◌, ◌^◌, ◌<◌, ◌≤◌, ◌≡◌, refl, Bool, true, false, ◌&&◌, arith, leb, ltb,
  get_or, holds_below, below_holds, some, [], ◌∷◌, List, has, update, update_self, update_ne,
  ℕ-eq_cases, inl, inr, ◌∙◌, ap,
}
use atlos.Dlist.{Ptr, Heap, tail, list_push_back}
use atlos.Dlist.Chain.{IsList}
use atlos.Dlist.Ends.{list_empty_lem, push_back-IsList}
use atlos.Pmm.{round_up, round_down, kernbase, page_size, page2kvaddr, kvaddr2page}
use atlos.Pmm.Round.{kvaddr2page-page2kvaddr, page2kvaddr_lem}
use atlos.Kmem.{Pool, kalloc_pages}
use atlos.Slab.{Slabs, Run, on_links, slab_pages, obj_removed, tag_of, empty, partial}
use atlos.Slab.Free.{IsSlab}
use atlos.Slab.Lists.{IsCache}
use atlos.Slab.Alloc.{
  slab_t_len, resize_objs, empty_slab_t_init, mark_pages, add_slab, cache_at, fill_with, get_pages,
  fill_empty_slot,
}
use atlos.Slab.Alloc.Init.{upto, init-IsSlab}

-- The pages of a slab of the cache `index`, the bytes and the number of its objects, and what stands
-- in front of them.
abbrev pages_at : ℕ → ℕ
pages_at index = get_or slab_pages index 0

abbrev size_at : ℕ → ℕ
size_at index = 2 ^ (4 + index)

abbrev objs_at : ℕ → ℕ
objs_at index = resize_objs (pages_at index) (size_at index)

abbrev first_at : ℕ → ℕ
first_at index = round_up (slab_t_len (objs_at index)) (size_at index)

record Fits (index objs first : ℕ) : Type 0 where
  ends_inside : first + objs * size_at index ≤ page_size * pages_at index
  first_inside : first < page_size * pages_at index
  four : 4 ≤ objs
  behind : slab_t_len objs ≤ first
  small : objs < obj_removed
  pages : pages_at index ≤ 2

fits : ℕ → ℕ → ℕ → Bool
fits index objs first =
    leb (first + objs * size_at index) (page_size * pages_at index)
    && ltb first (page_size * pages_at index)
    && leb 4 objs
    && leb (slab_t_len objs) first
    && ltb objs obj_removed
    && leb (pages_at index) 2

all_fit : holds_below 5 (λ index. fits index (objs_at index) (first_at index)) ≡ true
unfolding fits holds_below resize_objs round_up round_down
all_fit = refl

fits-Fits : (index objs first : ℕ) → fits index objs first ≡ true → Fits index objs first
unfolding fits
fits-Fits index objs first h = record {
  ends_inside = ground arith;
  first_inside = ground arith;
  four = ground arith;
  behind = ground arith;
  small = ground arith;
  pages = ground arith;
}

Fits-at : (index : ℕ) → index ≤ 4 → Fits index (objs_at index) (first_at index)
Fits-at index le = fits-Fits index (objs_at index) (first_at index) (
    below_holds 5 (λ index. fits index (objs_at index) (first_at index)) index all_fit
      (omega (arith, le)))

mark_pages-slab :
    (n page : ℕ) (slab : Ptr) (pool : Pool) (i : ℕ)
    → (page ≤ i → i < page + n → (mark_pages n page slab pool).slab i ≡ slab)
      × (i < page → (mark_pages n page slab pool).slab i ≡ pool.slab i)
unfolding mark_pages
mark_pages-slab zero page slab pool i = (λ ge lt. absurd (omega (arith, ge, lt)), λ lt. refl)
mark_pages-slab (suc n) page slab pool i =
    let (inside, before) = mark_pages-slab n (page + 1) slab _ i in
    (
      λ ge lt. elim (ℕ-eq_cases i page) [
        | inl e ↦ before (omega (arith, e)) ∙ rw (e) (update_self pool.slab page slab)
        | inr ne ↦ inside (omega (arith, ne, ge)) (omega (arith, lt))
      ],
      λ lt.
          before (omega (arith, lt)) ∙ update_ne pool.slab page i slab (λ e. omega (arith, lt, e)),
    )

module _ (off mcached : ℕ) (alloc : ℕ → Run ℕ) (index page : ℕ) (s : Slabs) (pool' : Pool) where
  abbrev cache : Ptr
  cache = cache_at off mcached index

  -- Where the `slab_t` stands, at the start of the pages.
  abbrev slab : Ptr
  slab = page2kvaddr page

  abbrev paid : Slabs
  paid = record s { pool = pool' }

  abbrev started : Slabs
  started = empty_slab_t_init cache slab (objs_at index) paid

  abbrev placed : Slabs
  placed = record started {
    buff = update started.buff slab ((slab + first_at index) % 2 ^ 32);
    pool = mark_pages (pages_at index) page slab started.pool;
  }

  fill_with-run :
      (h : Heap)
      → index ≤ 4
      → s.cache_order cache ≡ 4 + index
      → kvaddr2page slab ≡ page
      → list_push_back (empty cache) (tag_of slab) s.links ≡ some (tt, h)
      → fill_with off mcached alloc index (some page) paid ≡ some (0, record placed { links = h })
  unfolding fill_with add_slab empty_slab_t_init
  fill_with-run h le order back run =
      let here : ltb 4 index ≡ false = ground arith in
      rw (fill_with, here, add_slab, on_links, empty_slab_t_init, run, back, order) refl

  fill-run :
      (h : Heap) (fs : List Ptr)
      → index ≤ 4
      → s.cache_order cache ≡ 4 + index
      → kvaddr2page slab ≡ page
      → IsCache s.links cache [] fs []
      → kalloc_pages off (pages_at index) s.pool ≡ some (some page, pool')
      → list_push_back (empty cache) (tag_of slab) s.links ≡ some (tt, h)
      → fill_empty_slot off mcached alloc index s ≡ some (0, record placed { links = h })
  unfolding fill_empty_slot get_pages
  fill-run h fs le order back lists granted run =
      let no_empty = list_empty_lem s.links (empty cache) [] lists.third in
      let no_partial = list_empty_lem s.links (partial cache) [] lists.first in
      rw (fill_empty_slot, on_links, no_empty, no_partial, get_pages, granted)
        (fill_with-run h le order back run)

  placed-IsSlab :
      (h : Heap)
      → objs_at index < obj_removed
      → IsSlab (record placed { links = h }) slab (upto (objs_at index) 0)
  placed-IsSlab h small =
      let is = init-IsSlab cache slab (objs_at index) paid small in
      record {
        chain = is.chain;
        distinct = is.distinct;
        count = is.count;
        others = is.others;
        small = is.small;
      }

  -- If a cache of objects of at most 256 bytes has no partial and no empty slab, and `kalloc_pages`
  -- hands out pages within the first gigabyte, at whose start stands no end of the list of empty
  -- slabs, `fill_empty_slot` returns 0 and makes a slab in these pages. Its `slab_t` stands at
  -- their start and all of its objects, of the size of the cache, are free, in order, at least
  -- four. The first object starts behind the `slab_t` with its entry for each object, and the last
  -- one ends inside the pages, each of which leads to the slab; the slab is the only one in the
  -- list of empty slabs.
  pub fill_empty_slot-inside :
      (fs : List Ptr)
      → index ≤ 4
      → s.cache_order cache ≡ 4 + index
      → page + pages_at index ≤ 2 ^ 18
      → IsCache s.links cache [] fs []
      → has (tag_of slab) (empty cache ∷ tail (empty cache) ∷ []) ≡ false
      → kalloc_pages off (pages_at index) s.pool ≡ some (some page, pool')
      → (s' : Slabs) × (fill_empty_slot off mcached alloc index s ≡ some (0, s'))
        × IsSlab s' slab (upto (s'.total_objs slab) 0)
        × (s'.obj_order slab ≡ 4 + index)
        × (4 ≤ s'.total_objs slab)
        × (slab + slab_t_len (s'.total_objs slab) ≤ s'.buff slab)
        × (s'.buff slab + s'.total_objs slab * size_at index ≤ slab + page_size * pages_at index)
        × ((i : ℕ) → page ≤ i → i < page + pages_at index → s'.pool.slab i ≡ slab)
        × IsList s'.links (empty cache) (tag_of slab ∷ [])
  unfolding empty_slab_t_init
  fill_empty_slot-inside fs le order inside lists out granted =
      let (h, run, listed) =
        push_back-IsList s.links (empty cache) [] (tag_of slab) lists.third (ground arith) out in
      let fit = Fits-at index le in
      let some_page : 1 ≤ pages_at index = omega (arith, fit.ends_inside, fit.behind) in
      let low : page < 2 ^ 18 = omega (arith, inside, some_page) in
      let start : slab ≡ page * 2 ^ 12 + kernbase = page2kvaddr_lem page low in
      let back : kvaddr2page slab ≡ page =
        ap kvaddr2page (omega arith) ∙ (kvaddr2page-page2kvaddr page 0 low (omega arith)).0 in
      let total : placed.total_objs slab ≡ objs_at index =
        update_self s.total_objs slab (objs_at index) in
      let buff : placed.buff slab ≡ slab + first_at index =
        update_self started.buff slab ((slab + first_at index) % 2 ^ 32)
        ∙ omega (arith, start, fit.first_inside, inside) in
      (
        record placed { links = h },
        fill-run h fs le order back lists granted run,
        rw total (placed-IsSlab h fit.small),
        update_self s.obj_order slab (s.cache_order cache) ∙ order,
        rw total fit.four,
        rw (total, buff) (omega (arith, fit.behind)),
        rw (total, buff) (omega (arith, fit.ends_inside)),
        λ i ge lt. (mark_pages-slab (pages_at index) page slab started.pool i).0 ge lt,
        listed,
      )
