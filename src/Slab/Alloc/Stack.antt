-- ===== src/Slab/Alloc/Stack.antt =====
-- A run of `kmalloc` for the stack of a thread: a slab of four objects of 8192 bytes at 3000, the
-- first of them taken, in the list of the partial slabs of the tenth cache.
use atlos.Base.{◌+◌, ◌-◌, ◌≡◌, refl, some, ◌==◌, if◌then◌else◌, update}
use atlos.Dlist.{Heap, list_empty}
use atlos.Pmm.{is_pow_of_2, next_pow_of_2}
use atlos.Slab.{Slabs, take_obj, size2index, bit_length, fetch_obj_from_slab, move_tag}
use atlos.Slab.Alloc.{kmalloc, slab_alloc, index_for, find_slab, first}

-- The lists of the cache at 1576, and an empty list at 100.
abbrev links : Heap
links = record {
  next = λ p. if p == 1620 then 3016 else if p == 3016 then 1628 else p + 8;
  prev = λ p. if p == 3016 then 1620 else if p == 1628 then 3016 else p - 8;
  len = λ p. if p == 1620 then 1 else 0;
}

abbrev pub before : Slabs
before = record {
  links = links;
  free = λ p. 1;
  obj_order = λ p. 13;
  total_objs = λ p. 4;
  free_objs = λ p. 3;
  buff = λ p. 0xc0400000;
  obj_list = λ p i. i + 1;
  cache_order = λ p. 13;
  pool = record {
    bd = record { elem_size = λ i. 0; size = 1; level = 0 };
    bd_size = λ p. 0;
    flag = λ p. 2;
    slab = λ p. 3000;
  };
}

abbrev pub after : Slabs
after = take_obj 3000 before

pub kmalloc-run : kmalloc 0 1000 2 8192 before ≡ some (0xc0402000, after)
unfolding kmalloc slab_alloc index_for find_slab first size2index bit_length is_pow_of_2
    next_pow_of_2 fetch_obj_from_slab take_obj move_tag update list_empty
kmalloc-run = refl
