-- ===== src/Slab/Lists.antt =====
-- Objects fetched and returned, with the lists that the slab goes through.
use atlos.Base.{
  ℕ, suc, ◌+◌, ◌-◌, ◌*◌, ◌%◌, ◌^◌, ◌<◌, ◌≡◌, refl, ◌≢◌, true, false, ◌&&◌, some, List, [], ◌∷◌,
  ◌++◌, arith, length, ltb, ◌==◌, ne→==,
}
use atlos.Dlist.{Ptr, Heap, list_erase, list_push_back}
use atlos.Dlist.Move.{Three, move-Three, swap_first, swap_last}
use atlos.Slab.{
  Slabs, on_links, tag_of, full, empty, partial, move_tag, take_obj, fetch_obj_from_slab,
}
use atlos.Slab.Free.{IsSlab, take-IsSlab}

-- The partial, the full and the empty slabs of a cache, by their list elements.
abbrev pub IsCache : Heap → Ptr → List Ptr → List Ptr → List Ptr → Type 0
IsCache h cache ps fs es = Three h (partial cache) ps (full cache) fs (empty cache) es

pub links-IsSlab :
    (s : Slabs) (h : Heap) (slab : Ptr) (xs : List ℕ)
    → IsSlab s slab xs
    → IsSlab (record s { links = h }) slab xs
links-IsSlab s h slab xs is = record {
  chain = is.chain;
  distinct = is.distinct;
  count = is.count;
  others = is.others;
  small = is.small;
}

pub move_tag-run :
    (s : Slabs) (h₁ h₂ : Heap) (from to tag : Ptr)
    → list_erase from tag s.links ≡ some (tag, h₁)
    → list_push_back to tag h₁ ≡ some (tt, h₂)
    → move_tag from to tag s ≡ some (tt, record s { links = h₂ })
unfolding move_tag
move_tag-run s h₁ h₂ from to tag erase push = rw (on_links, erase, on_links, push) refl

-- The address of an object.
abbrev pub address : Slabs → Ptr → ℕ → ℕ
address s slab x = (x * 2 ^ s.obj_order slab + s.buff slab) % 2 ^ 32

module _ (s : Slabs) (cache slab : Ptr) (x : ℕ) (rest : List ℕ) where
  abbrev taken : Slabs
  taken = take_obj slab s

  left-length : IsSlab s slab (x ∷ rest) → taken.free_objs slab ≡ length rest
  left-length is = (take-IsSlab s slab x rest is).count

  may_fetch :
      IsSlab s slab (x ∷ rest)
      → (ltb 0 (s.free_objs slab) && ltb (s.free slab) (s.total_objs slab)) ≡ true
  may_fetch is = ground (arith, is.count, is.chain.0, is.chain.1)

  fetch-stays :
      IsSlab s slab (x ∷ rest)
      → length rest ≢ 0
      → length rest ≢ s.total_objs slab - 1
      → fetch_obj_from_slab cache slab s ≡ some (address s slab x, taken)
  unfolding fetch_obj_from_slab
  fetch-stays is some_left not_first =
      rw
        (
          may_fetch is,
          left-length is,
          ne→== (length rest) 0 some_left,
          ne→== (length rest) (s.total_objs slab - 1) not_first,
          is.chain.0,
        )
        refl

  fetch-last :
      (h₁ h₂ : Heap)
      → IsSlab s slab (x ∷ rest)
      → length rest ≡ 0
      → 1 < s.total_objs slab
      → list_erase (partial cache) (tag_of slab) s.links ≡ some (tag_of slab, h₁)
      → list_push_back (full cache) (tag_of slab) h₁ ≡ some (tt, h₂)
      → fetch_obj_from_slab cache slab s ≡ some (address s slab x, record taken { links = h₂ })
  unfolding fetch_obj_from_slab
  fetch-last h₁ h₂ is none_left two erase push =
      let run = move_tag-run taken h₁ h₂ (partial cache) (full cache) (tag_of slab) erase push in
      let last : (length rest == 0) ≡ true = ground arith in
      let not_first : (length rest == s.total_objs slab - 1) ≡ false = ground arith in
      rw (may_fetch is, left-length is, last, run, not_first, is.chain.0) refl

  fetch-first :
      (h₁ h₂ : Heap)
      → IsSlab s slab (x ∷ rest)
      → suc (length rest) ≡ s.total_objs slab
      → 1 < s.total_objs slab
      → list_erase (empty cache) (tag_of slab) s.links ≡ some (tag_of slab, h₁)
      → list_push_back (partial cache) (tag_of slab) h₁ ≡ some (tt, h₂)
      → fetch_obj_from_slab cache slab s ≡ some (address s slab x, record taken { links = h₂ })
  unfolding fetch_obj_from_slab
  fetch-first h₁ h₂ is all two erase push =
      let run = move_tag-run taken h₁ h₂ (empty cache) (partial cache) (tag_of slab) erase push in
      let not_last : (length rest == 0) ≡ false = ground arith in
      let first : (length rest == s.total_objs slab - 1) ≡ true = ground arith in
      rw (may_fetch is, left-length is, not_last, first, run, is.chain.0) refl

-- The partial slabs `us`, `t`, `vs` when `t` has the free objects `rest`, and the full slabs.
abbrev pub partial_with : List ℕ → List Ptr → Ptr → List Ptr → List Ptr
partial_with [] us t vs = us ++ vs
partial_with (y ∷ ys) us t vs = us ++ t ∷ vs

abbrev pub full_with : List ℕ → List Ptr → Ptr → List Ptr
full_with [] fs t = fs ++ t ∷ []
full_with (y ∷ ys) fs t = fs

-- A fetch from a partial slab, whose free objects are `x` and `rest` and fewer than all, returns the
-- address of `x` and leaves `rest` free. The slab stays where it is, or goes to the end of the full
-- slabs if `x` was its last free object.
pub fetch-IsCache :
    (s : Slabs) (cache slab : Ptr) (x : ℕ) (rest : List ℕ) (us vs fs es : List Ptr)
    → IsSlab s slab (x ∷ rest)
    → suc (length rest) < s.total_objs slab
    → IsCache s.links cache (us ++ tag_of slab ∷ vs) fs es
    → (s' : Slabs) × (fetch_obj_from_slab cache slab s ≡ some (address s slab x, s'))
      × IsSlab s' slab rest
      × IsCache s'.links cache
          (partial_with rest us (tag_of slab) vs)
          (full_with rest fs (tag_of slab))
          es
unfolding take_obj
fetch-IsCache s cache slab x [] us vs fs es is more lists =
    let (h₁, h₂, erase, push, three) =
      move-Three s.links (partial cache) us (tag_of slab) vs (full cache) fs (empty cache) es
        lists in
    (
      record (take_obj slab s) { links = h₂ },
      fetch-last s cache slab x [] h₁ h₂ is refl more erase push,
      links-IsSlab (take_obj slab s) h₂ slab [] (take-IsSlab s slab x [] is),
      three,
    )
fetch-IsCache s cache slab x (y ∷ ys) us vs fs es is more lists = (
  take_obj slab s,
  fetch-stays s cache slab x (y ∷ ys) is (ground arith) (ground arith),
  take-IsSlab s slab x (y ∷ ys) is,
  lists,
)

-- A fetch from an empty slab of at least two objects, all free with `x` first, returns the address of
-- `x`, leaves the others free, and moves the slab to the end of the partial slabs.
pub fetch_empty-IsCache :
    (s : Slabs) (cache slab : Ptr) (x : ℕ) (rest : List ℕ) (ps fs us vs : List Ptr)
    → IsSlab s slab (x ∷ rest)
    → suc (length rest) ≡ s.total_objs slab
    → 1 < s.total_objs slab
    → IsCache s.links cache ps fs (us ++ tag_of slab ∷ vs)
    → (s' : Slabs) × (fetch_obj_from_slab cache slab s ≡ some (address s slab x, s'))
      × IsSlab s' slab rest
      × IsCache s'.links cache (ps ++ tag_of slab ∷ []) fs (us ++ vs)
unfolding take_obj
fetch_empty-IsCache s cache slab x rest ps fs us vs is all two lists =
    let t = tag_of slab in
    let es = us ++ t ∷ vs in
    let rotated =
      swap_first s.links (partial cache) ps (empty cache) es (full cache) fs
        (swap_last s.links (partial cache) ps (full cache) fs (empty cache) es lists) in
    let (h₁, h₂, erase, push, three) =
      move-Three s.links (empty cache) us t vs (partial cache) ps (full cache) fs rotated in
    (
      record (take_obj slab s) { links = h₂ },
      fetch-first s cache slab x rest h₁ h₂ is all two erase push,
      links-IsSlab (take_obj slab s) h₂ slab rest (take-IsSlab s slab x rest is),
      swap_last h₂ (partial cache) (ps ++ t ∷ []) (empty cache) (us ++ vs) (full cache) fs (
          swap_first h₂ (empty cache) (us ++ vs) (partial cache) (ps ++ t ∷ []) (full cache) fs
            three),
    )
