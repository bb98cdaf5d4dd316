-- ===== src/Slab/Alloc/Tests.antt =====
-- Runs of the slab allocator: a slab of four objects of 16 bytes, in one of the lists of its cache.
use atlos.Base.{
  ℕ, ◌+◌, ◌-◌, ◌*◌, ◌<◌, ◌≤◌, ◌≡◌, refl, none, some, [], ◌∷◌, arith, ◌==◌, if◌then◌else◌, ◌⊎◌, inl,
  inr, update, has, false, ◌^◌,
}
use atlos.Dlist.{Ptr, Heap}
use atlos.Pmm.{page2kvaddr, next_pow_of_2}
use atlos.Slab.{tag_of, Slabs, obj_removed, size2index, bit_length, return_obj_to_slab}
use atlos.Slab.Free.{IsSlab}
use atlos.Slab.Lists.{IsCache}
use atlos.Slab.Return.{return-IsCache, return_full-IsCache, return-free_twice}
use atlos.Slab.Alloc.Init.{upto}
use atlos.Dlist.Chain.{IsList}
use atlos.Pmm.Round.{page2kvaddr_lem}
use atlos.Kmem.{Pool}
use atlos.Kmem.Blocks.{Granted, kalloc_pages-Granted}
use atlos.Buddy.Init.{built, built-IsTree, built-NoPhantom, init_full}
use atlos.Slab.Alloc.{slab_t_len, fill_empty_slot, slab_alloc, index_for}
use atlos.Slab.Alloc.Choose.{alloc-partial, alloc-empty}
use atlos.Slab.Alloc.Sizes.{index_for-smallest}
use atlos.Slab.Alloc.Layout.{fill_empty_slot-inside}

abbrev cache : Ptr
cache = 1000

abbrev slab : Ptr
slab = 2000

-- The list `l` of the cache holds the slab, and the two others are empty.
abbrev heap : Ptr → Heap
heap l = record {
  next = λ p. if p == l then 2016 else if p == 2016 then l + 8 else p + 8;
  prev = λ p. if p == 2016 then l else if p == l + 8 then 2016 else p - 8;
  len = λ p. if p == l then 1 else 0;
}

abbrev in_partial : Heap
in_partial = heap 1044

abbrev in_full : Heap
in_full = heap 1004

abbrev in_empty : Heap
in_empty = heap 1024

in_partial-IsCache : IsCache in_partial cache (2016 ∷ []) [] []
in_partial-IsCache = record {
  first = record {
    chain = (refl, refl, (refl, refl, refl));
    distinct = (refl, (refl, (refl, tt)));
    non_null = refl;
    count = refl;
    small = omega arith;
  };
  second = record {
    chain = (refl, refl, refl);
    distinct = (refl, (refl, tt));
    non_null = refl;
    count = refl;
    small = omega arith;
  };
  third = record {
    chain = (refl, refl, refl);
    distinct = (refl, (refl, tt));
    non_null = refl;
    count = refl;
    small = omega arith;
  };
  apart₁₂ = λ a i. ground arith;
  apart₁₃ = λ a i. ground arith;
  apart₂₃ = λ a i. ground arith;
}

in_full-IsCache : IsCache in_full cache [] (2016 ∷ []) []
in_full-IsCache = record {
  first = record {
    chain = (refl, refl, refl);
    distinct = (refl, (refl, tt));
    non_null = refl;
    count = refl;
    small = omega arith;
  };
  second = record {
    chain = (refl, refl, (refl, refl, refl));
    distinct = (refl, (refl, (refl, tt)));
    non_null = refl;
    count = refl;
    small = omega arith;
  };
  third = record {
    chain = (refl, refl, refl);
    distinct = (refl, (refl, tt));
    non_null = refl;
    count = refl;
    small = omega arith;
  };
  apart₁₂ = λ a i. ground arith;
  apart₁₃ = λ a i. ground arith;
  apart₂₃ = λ a i. ground arith;
}

in_empty-IsCache : IsCache in_empty cache [] [] (2016 ∷ [])
in_empty-IsCache = record {
  first = record {
    chain = (refl, refl, refl);
    distinct = (refl, (refl, tt));
    non_null = refl;
    count = refl;
    small = omega arith;
  };
  second = record {
    chain = (refl, refl, refl);
    distinct = (refl, (refl, tt));
    non_null = refl;
    count = refl;
    small = omega arith;
  };
  third = record {
    chain = (refl, refl, (refl, refl, refl));
    distinct = (refl, (refl, (refl, tt)));
    non_null = refl;
    count = refl;
    small = omega arith;
  };
  apart₁₂ = λ a i. ground arith;
  apart₁₃ = λ a i. ground arith;
  apart₂₃ = λ a i. ground arith;
}

-- The objects 1 and 3 are free, in this order; 4 ends a free list.
abbrev with_two : ℕ → ℕ
with_two i = if i == 1 then 3 else if i == 3 then 4 else obj_removed

abbrev all_free : ℕ → ℕ
all_free i = i + 1

abbrev none_free : ℕ → ℕ
none_free i = obj_removed

abbrev state : Heap → (ℕ → ℕ) → ℕ → ℕ → Slabs
state h list free free_objs = record {
  links = h;
  free = λ p. free;
  obj_order = λ p. 4;
  total_objs = λ p. 4;
  free_objs = λ p. free_objs;
  buff = λ p. 4096;
  obj_list = λ p. list;
  cache_order = λ p. 4;
  pool = record {
    bd = record { elem_size = λ i. 0; size = 1; level = 0 };
    bd_size = λ i. 0;
    flag = λ i. 0;
    slab = λ i. 0;
  };
}

abbrev some_taken : Slabs
some_taken = state in_partial with_two 1 2

some_taken-IsSlab : IsSlab some_taken slab (1 ∷ 3 ∷ [])
some_taken-IsSlab = record {
  chain = (refl, omega arith, (refl, omega arith, refl));
  distinct = (refl, (refl, tt));
  count = refl;
  others = λ i lt out. ground arith;
  small = omega arith;
}

abbrev unused : Slabs
unused = state in_empty all_free 0 4

unused-IsSlab : IsSlab unused slab (0 ∷ 1 ∷ 2 ∷ 3 ∷ [])
unused-IsSlab = record {
  chain = (refl, omega arith, (refl, omega arith, (refl, omega arith, (refl, omega arith, refl))));
  distinct = (refl, (refl, (refl, (refl, tt))));
  count = refl;
  others = λ i lt out. ground arith;
  small = omega arith;
}

abbrev used_up : Slabs
used_up = state in_full none_free 4 0

used_up-IsSlab : IsSlab used_up slab []
used_up-IsSlab = record {
  chain = refl;
  distinct = tt;
  count = refl;
  others = λ i lt out. refl;
  small = omega arith;
}

alloc-partial_example :
    (s' : Slabs) × (slab_alloc 0 cache 1 16 some_taken ≡ some (4112, s'))
    × IsSlab s' slab (3 ∷ [])
    × IsCache s'.links cache (2016 ∷ []) [] []
unfolding index_for size2index bit_length next_pow_of_2
alloc-partial_example =
    alloc-partial 0 cache 0 16 some_taken slab 1 (3 ∷ []) [] [] [] (omega arith) (omega arith)
      some_taken-IsSlab (omega arith) in_partial-IsCache

alloc-empty_example :
    (s' : Slabs) × (slab_alloc 0 cache 1 9 unused ≡ some (4096, s'))
    × IsSlab s' slab (1 ∷ 2 ∷ 3 ∷ [])
    × IsCache s'.links cache (2016 ∷ []) [] []
unfolding index_for size2index bit_length next_pow_of_2
alloc-empty_example =
    alloc-empty 0 cache 0 9 unused slab 0 (1 ∷ 2 ∷ 3 ∷ []) [] [] (omega arith) (omega arith)
      unused-IsSlab refl (omega arith) in_empty-IsCache

return-IsCache_example :
    (s' : Slabs) × (return_obj_to_slab 0 4096 slab cache some_taken ≡ some (tt, s'))
    × IsSlab s' slab (0 ∷ 1 ∷ 3 ∷ [])
    × IsCache s'.links cache (2016 ∷ []) [] []
return-IsCache_example =
    return-IsCache some_taken 0 cache slab 0 (1 ∷ 3 ∷ []) [] [] [] []
      (record {
        slab_ok = some_taken-IsSlab;
        object = omega arith;
        is_taken = refl;
        space = omega arith;
        obj_ne = omega arith;
        slab_ne = omega arith;
        cache_ne = omega arith;
      })
      (omega arith) in_partial-IsCache (omega arith)

return_full-IsCache_run :
    (s' : Slabs) × (return_obj_to_slab 0 4128 slab cache used_up ≡ some (tt, s'))
    × IsSlab s' slab (2 ∷ [])
    × IsCache s'.links cache (2016 ∷ []) [] []
return_full-IsCache_run =
    return_full-IsCache used_up 0 cache slab 2 [] [] [] []
      (record {
        slab_ok = used_up-IsSlab;
        object = omega arith;
        is_taken = refl;
        space = omega arith;
        obj_ne = omega arith;
        slab_ne = omega arith;
        cache_ne = omega arith;
      })
      (omega arith) in_full-IsCache (omega arith)

return-free_twice_run : return_obj_to_slab 0 4144 slab cache some_taken ≡ none
return-free_twice_run =
    return-free_twice some_taken 0 cache slab 3 (1 ∷ 3 ∷ []) some_taken-IsSlab (omega arith)
      (omega arith) refl

-- A cache without partial and empty slabs, and a pool of eight pages from page 100 on.
abbrev no_slabs : Heap
no_slabs = record { next = λ p. p + 8; prev = λ p. p - 8; len = λ p. 0 }

no_slabs-IsCache : IsCache no_slabs cache [] [] []
no_slabs-IsCache = record {
  first = record {
    chain = (refl, refl, refl);
    distinct = (refl, (refl, tt));
    non_null = refl;
    count = refl;
    small = omega arith;
  };
  second = record {
    chain = (refl, refl, refl);
    distinct = (refl, (refl, tt));
    non_null = refl;
    count = refl;
    small = omega arith;
  };
  third = record {
    chain = (refl, refl, refl);
    distinct = (refl, (refl, tt));
    non_null = refl;
    count = refl;
    small = omega arith;
  };
  apart₁₂ = λ a i. ground arith;
  apart₁₃ = λ a i. ground arith;
  apart₂₃ = λ a i. ground arith;
}

abbrev pool : Pool
pool = record {
  bd = record { elem_size = built 3; size = 8; level = 3 };
  bd_size = λ i. 0;
  flag = λ i. 0;
  slab = λ i. 0;
}

abbrev fresh : Slabs
fresh = record (state no_slabs none_free 4 0) { pool = pool }

got : (o : ℕ) × Granted 100 pool 1 0 o
unfolding next_pow_of_2
got =
    elim (kalloc_pages-Granted 100 pool 1 0 (built-IsTree 3) (built-NoPhantom 3) (omega arith)
      (omega arith) (omega arith) refl) [
        | inl granted ↦ granted.1
        | inr failed ↦ absurd (omega (arith, failed.0, init_full 3 0 0 (omega arith) (omega arith)))
      ]

abbrev page : ℕ
page = 2 ^ 0 * got.0 + 100

abbrev pool_after : Pool
pool_after = record pool {
  bd = record pool.bd { elem_size = got.1.after };
  bd_size = update pool.bd_size page 1;
}

abbrev at_page : Ptr
at_page = page2kvaddr page

page_low : page < 2 ^ 18
page_low = omega (arith, got.1.inside)

at_page-new : has (tag_of at_page) (1024 ∷ 1032 ∷ []) ≡ false
at_page-new = ground (arith, page2kvaddr_lem page page_low)

fill_empty_slot-inside_example :
    (s' : Slabs) × (fill_empty_slot 100 cache (λ n s. none) 0 fresh ≡ some (0, s'))
    × IsSlab s' at_page (upto (s'.total_objs at_page) 0)
    × (s'.obj_order at_page ≡ 4)
    × (4 ≤ s'.total_objs at_page)
    × (at_page + slab_t_len (s'.total_objs at_page) ≤ s'.buff at_page)
    × (s'.buff at_page + s'.total_objs at_page * 16 ≤ at_page + 4096)
    × ((i : ℕ) → page ≤ i → i < page + 1 → s'.pool.slab i ≡ at_page)
    × IsList s'.links 1024 (tag_of at_page ∷ [])
fill_empty_slot-inside_example =
    fill_empty_slot-inside 100 cache (λ n s. none) 0 page fresh pool_after [] (omega arith) refl
      (omega (arith, page_low)) no_slabs-IsCache at_page-new got.1.result

index_for-smallest_run : (index_for 100 < 10) × (100 ≤ 128) × ((index_for 100 ≡ 0) ⊎ (64 < 100))
unfolding index_for size2index bit_length next_pow_of_2
index_for-smallest_run = index_for-smallest 100 (omega arith) (omega arith)
