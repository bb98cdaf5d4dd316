-- ===== src/Slab.antt =====
-- kern/mm/slab.c and kern/mm/slab.h: objects of ten sizes from slabs, each in one of the three lists
-- of its cache. The state has a function for each field of a `slab_t`; `mem_cache_t` is its address.
pub mod Free
pub mod Lists
pub mod Return
pub mod Alloc
use atlos.Base.{
  ℕ, zero, suc, ◌+◌, ◌-◌, ◌*◌, ◌/◌, ◌%◌, ◌^◌, Bool, true, false, ◌&&◌, not, Option, none, some,
  List, [], ◌∷◌, ltb, leb, ◌==◌, get_or, if◌then◌else◌, update, bit_and, bit_or,
}
use atlos.Pmm.{is_pow_of_2, next_pow_of_2, page2kvaddr, kvaddr2page, round_up, page_shift}
use atlos.Dlist.{
  Ptr, null, Heap, list_init, list_empty, list_erase, list_push_back, list_pop_back, load_next,
}
use atlos.Dlist as Dlist
use atlos.Kmem.{Pool, kalloc_pages, kfree_pages}

pub record Slabs : Type 0 where
  pub links : Heap
  pub free : Ptr → ℕ
  pub obj_order : Ptr → ℕ
  pub total_objs : Ptr → ℕ
  pub free_objs : Ptr → ℕ
  pub buff : Ptr → ℕ
  pub obj_list : Ptr → ℕ → ℕ
  -- `obj_order` of a cache.
  pub cache_order : Ptr → ℕ
  pub pool : Pool

abbrev pub obj_removed : ℕ
obj_removed = 0xffffffff

abbrev pub slab_min_shift : ℕ
slab_min_shift = 4

abbrev pub num_cached : ℕ
num_cached = 10

abbrev pub slab_obj_min_size : ℕ
slab_obj_min_size = 16

abbrev pub slab_t_in_slab_index : ℕ
slab_t_in_slab_index = 4

abbrev pub max_empty_slabs : ℕ
max_empty_slabs = 4

abbrev pub slab_pages : List ℕ
slab_pages = 1 ∷ 1 ∷ 1 ∷ 1 ∷ 2 ∷ 4 ∷ 4 ∷ 4 ∷ 4 ∷ 8 ∷ []

-- The places of the fields: `tag` in a slab, and the lists in a cache of 64 bytes.
abbrev pub tag_of : Ptr → Ptr
tag_of slab = slab + 16

abbrev pub tag2slab : Ptr → Ptr
tag2slab tag = tag - 16

abbrev pub full : Ptr → Ptr
full cache = cache + 4

abbrev pub empty : Ptr → Ptr
empty cache = cache + 24

abbrev pub partial : Ptr → Ptr
partial cache = cache + 44

-- `none` is a failed assertion or a fault.
abbrev pub Run : Type 0 → Type 0
Run A = Slabs → Option (A × Slabs)

abbrev pub pure : {A : Type 0} → A → Run A
pure value s = some (value, s)

module _ {A B : Type 0} where
  abbrev pub and_then : Option (A × Slabs) → (A → Run B) → Option (B × Slabs)
  and_then none k = none
  and_then (some (a, s)) k = k a s

  infixl 5 ◌>>=◌ ◌>>◌
  abbrev pub ◌>>=◌ : Run A → (A → Run B) → Run B
  m >>= k = λ s. and_then (m s) k

  abbrev pub ◌>>◌ : Run A → Run B → Run B
  m >> n = m >>= λ _. n

-- An operation on lists.
abbrev pub on_links : {A : Type 0} → Dlist.Run A → Run A
on_links m s = elim (m s.links) [ none ↦ none | some (a, h) ↦ some (a, record s { links = h }) ]

abbrev pub assert : Bool → Run (Unit {0})
assert ok s = if ok then some (tt, s) else none

abbrev pub when : Bool → Run (Unit {0}) → Run (Unit {0})
when test m = if test then m else pure tt

-- The rounds of `for (; n; ++res, n >>= 1)` on a word.
bit_length : ℕ → ℕ → ℕ → ℕ
bit_length zero n res = res
bit_length (suc f) n res = let rest = bit_length f (n / 2) (res + 1) in if n == 0 then res else rest

pub size2index : ℕ → ℕ
unfolding bit_length
size2index n = (bit_length 32 n 0 + 2 ^ 32 - 1) % 2 ^ 32

-- The list element of a slab goes from the one list to the end of the other.
pub move_tag : Ptr → Ptr → Ptr → Run (Unit {0})
move_tag from to tag s = (do on_links (list_erase from tag); on_links (list_push_back to tag)) s

-- `fetch_obj_from_slab` up to the lists: the first free object is marked as removed.
unfoldable pub take_obj : Ptr → Slabs → Slabs
take_obj slab s =
    let free = s.free slab in
    record s {
      free = update s.free slab (s.obj_list slab free);
      obj_list = update s.obj_list slab (update (s.obj_list slab) free obj_removed);
      free_objs = update s.free_objs slab (s.free_objs slab - 1);
    }

pub fetch_obj_from_slab : Ptr → Ptr → Run ℕ
unfolding take_obj move_tag
fetch_obj_from_slab cache slab s =
    let obj = (s.free slab * 2 ^ s.obj_order slab + s.buff slab) % 2 ^ 32 in
    let s₁ = take_obj slab s in
    let left = s₁.free_objs slab in
    (do
      assert (ltb 0 (s.free_objs slab) && ltb (s.free slab) (s.total_objs slab))
      λ _. some (tt, s₁)
      when (left == 0) (move_tag (partial cache) (full cache) (tag_of slab))
      when (left == s.total_objs slab - 1) (move_tag (empty cache) (partial cache) (tag_of slab))
      pure obj)
      s

-- `return_obj_to_slab` up to the lists: the object `off` becomes the first free one.
pub give_obj : Ptr → ℕ → Slabs → Slabs
give_obj slab off s = record s {
  obj_list = update s.obj_list slab (update (s.obj_list slab) off (s.free slab));
  free = update s.free slab off;
  free_objs = update s.free_objs slab ((s.free_objs slab + 1) % 2 ^ 32);
}

-- `kfree_pages(page, page->bd_size)`.
free_run : ℕ → ℕ → Run (Unit {0})
free_run bd_page_off page s = elim (kfree_pages bd_page_off page (s.pool.bd_size page) s.pool) [
  | none ↦ none
  | some pool' ↦ some (tt, record s { pool = pool' })
]

-- One round of `try_free_empty_slabs`, the `i`-th, for the `tag` of a slab. It compares `i` with the index of a cache.
release_one : ℕ → ℕ → Ptr → Run (Unit {0})
unfolding free_run
release_one bd_page_off i tag s =
    let slab = tag2slab tag in
    let buff = if ltb slab_t_in_slab_index i then s.buff slab else slab in
    free_run bd_page_off (kvaddr2page buff) s

-- The loop of `try_free_empty_slabs`, from `i` on.
release : ℕ → Ptr → ℕ → ℕ → Run (Unit {0})
unfolding release_one
release bd_page_off cache zero i s = some (tt, s)
release bd_page_off cache (suc n) i s =
    (do
      elem ← on_links (list_pop_back (empty cache))
      release_one bd_page_off i elem
      release bd_page_off cache n (i + 1))
      s

-- `try_free_empty_slabs`, for the number of slabs to release by each flag.
pub num_release : ℕ → ℕ → ℕ
num_release flag len =
    if not (bit_and flag 1 == 0)
    then len - max_empty_slabs
    else if not (bit_and flag 2 == 0)
    then len / 2
    else if not (bit_and flag 4 == 0)
    then len
    else 0

pub try_free_empty_slabs : ℕ → Ptr → ℕ → Run (Unit {0})
unfolding release num_release
try_free_empty_slabs bd_page_off cache flag s =
    release bd_page_off cache (num_release flag (s.links.len (empty cache))) 0 s

pub return_obj_to_slab : ℕ → ℕ → Ptr → Ptr → Run (Unit {0})
unfolding give_obj move_tag try_free_empty_slabs
return_obj_to_slab bd_page_off obj slab cache s =
    let off = (obj + 2 ^ 32 - s.buff slab) % 2 ^ 32 / 2 ^ s.obj_order slab in
    let s₁ = give_obj slab off s in
    let left = s₁.free_objs slab in
    (do
      assert (not (obj == 0) && not (slab == 0) && not (cache == 0))
      assert (s.obj_list slab off == obj_removed)
      λ _. some (tt, s₁)
      when (left == s.total_objs slab) (move_tag (partial cache) (empty cache) (tag_of slab))
      when (left == 1) (move_tag (full cache) (partial cache) (tag_of slab))
      try_free_empty_slabs bd_page_off cache 1)
      s
