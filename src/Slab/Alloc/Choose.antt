-- ===== src/Slab/Alloc/Choose.antt =====
-- Which slab `slab_alloc` takes an object from.
use atlos.Base.{ℕ, suc, ◌<◌, ◌≡◌, refl, ◌≢◌, false, some, List, [], ◌∷◌, arith, length, ◌==◌, ne→==}
use atlos.Dlist.{Ptr, null}
use atlos.Dlist.Ends.{list_empty_lem}
use atlos.Slab.{Slabs, Run, on_links, tag_of, tag2slab, empty, partial}
use atlos.Slab.Free.{IsSlab}
use atlos.Slab.Lists.{IsCache, address, partial_with, full_with, fetch-IsCache, fetch_empty-IsCache}
use atlos.Slab.Alloc.{cache_at, first, find_slab, index_for, slab_alloc, fill_empty_slot}

module _ (s : Slabs) (fill : Run ℕ) (r : ℕ) (cache slab : Ptr) (ts : List Ptr) (fs : List Ptr) where
  first-partial :
      (es : List Ptr)
      → IsCache s.links cache (tag_of slab ∷ ts) fs es
      → find_slab fill (suc r) cache s ≡ some (slab, s)
  unfolding find_slab first
  first-partial es lists =
      let some_partial = list_empty_lem s.links (partial cache) (tag_of slab ∷ ts) lists.first in
      let tested = list_empty_lem s.links (empty cache) es lists.third in
      let ne : (partial cache == null) ≡ false = ground arith in
      let head : s.links.next (partial cache) ≡ tag_of slab = lists.first.chain.2.0 in
      let back : tag2slab (tag_of slab) ≡ slab = omega arith in
      rw (on_links, some_partial, tested, ne, head, back) refl

  first-empty :
      IsCache s.links cache [] fs (tag_of slab ∷ ts)
      → find_slab fill (suc r) cache s ≡ some (slab, s)
  unfolding find_slab first
  first-empty lists =
      let no_partial = list_empty_lem s.links (partial cache) [] lists.first in
      let some_empty = list_empty_lem s.links (empty cache) (tag_of slab ∷ ts) lists.third in
      let ne : (empty cache == null) ≡ false = ground arith in
      let head : s.links.next (empty cache) ≡ tag_of slab = lists.third.chain.2.0 in
      let back : tag2slab (tag_of slab) ≡ slab = omega arith in
      rw (on_links, no_partial, some_empty, ne, head, back) refl

module _ (off mcached f n : ℕ) (s : Slabs) (slab : Ptr) (x : ℕ) (rest : List ℕ) (ts : List Ptr)
    (fs : List Ptr) where
  -- `slab_alloc` of a positive size, in whose cache a slab is partial, returns the address of the
  -- first free object of the first partial slab, which then has one free object less. The slab stays
  -- where it is, or goes to the end of the full slabs if the object was its last free one.
  pub alloc-partial :
      (es : List Ptr)
      → n ≢ 0
      → slab ≢ null
      → IsSlab s slab (x ∷ rest)
      → suc (length rest) < s.total_objs slab
      → IsCache s.links (cache_at off mcached (index_for n)) (tag_of slab ∷ ts) fs es
      → (s' : Slabs) × (slab_alloc off mcached (suc f) n s ≡ some (address s slab x, s'))
        × IsSlab s' slab rest
        × IsCache s'.links
            (cache_at off mcached (index_for n))
            (partial_with rest [] (tag_of slab) ts)
            (full_with rest fs (tag_of slab))
            es
  unfolding slab_alloc
  alloc-partial es some_size some_slab is more lists =
      let cache = cache_at off mcached (index_for n) in
      let fill = fill_empty_slot off mcached (slab_alloc off mcached f) (index_for n) in
      let (s', run, ok, lists') = fetch-IsCache s cache slab x rest [] ts fs es is more lists in
      let found = first-partial s fill 1 cache slab ts fs es lists in
      (s', rw (ne→== n 0 some_size, found, ne→== slab null some_slab, run) refl, ok, lists')

  -- Where no slab is partial, it returns the address of the first free object of the first empty slab,
  -- which has at least two objects and becomes the only partial one.
  pub alloc-empty :
      n ≢ 0
      → slab ≢ null
      → IsSlab s slab (x ∷ rest)
      → suc (length rest) ≡ s.total_objs slab
      → 1 < s.total_objs slab
      → IsCache s.links (cache_at off mcached (index_for n)) [] fs (tag_of slab ∷ ts)
      → (s' : Slabs) × (slab_alloc off mcached (suc f) n s ≡ some (address s slab x, s'))
        × IsSlab s' slab rest
        × IsCache s'.links (cache_at off mcached (index_for n)) (tag_of slab ∷ []) fs ts
  unfolding slab_alloc
  alloc-empty some_size some_slab is all two lists =
      let cache = cache_at off mcached (index_for n) in
      let fill = fill_empty_slot off mcached (slab_alloc off mcached f) (index_for n) in
      let (s', run, ok, lists') =
        fetch_empty-IsCache s cache slab x rest [] fs [] ts is all two lists in
      let found = first-empty s fill 1 cache slab ts fs lists in
      (s', rw (ne→== n 0 some_size, found, ne→== slab null some_slab, run) refl, ok, lists')
