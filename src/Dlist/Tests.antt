-- ===== src/Dlist/Tests.antt =====
-- The list operations run on a list at 100 with the elements 200 and 300, and the theorems there.
use atlos.Base.{
  ◌≡◌, refl, true, Option, none, some, [], ◌∷◌, arith, ◌==◌, update, if◌then◌else◌, ltb,
}
use atlos.Dlist.{
  Ptr, null, Heap, Run, ◌>>◌, list_init, list_push_back, list_push_front, list_pop_front,
  list_pop_back, list_elem_find, list_traversal, list_insert, list_erase, list_replace,
  list_insert_before, list_front, list_back,
}
use atlos.Dlist.Chain.{IsRing, IsList}
use atlos.Dlist.Insert.{inserted, insert-IsRing}
use atlos.Dlist.Erase.{erased, erase-IsRing}
use atlos.Dlist.Replace.{replaced, replace-IsRing, insert_before-IsRing}
use atlos.Dlist.Ends.{
  push_back-IsList, push_front-IsList, pop_front-IsList, pop_back-IsList, pop-empty, front_back,
  init-IsList,
}
use atlos.Dlist.Walk.{find-has, traversal-first}
use atlos.Dlist.Separate.{Apart, insert-Apart, erase-Apart}

-- Two lists: 100 holds 200 and 300, and 500 is empty.
abbrev heap : Heap
heap = record {
  next = λ p.
      if p == 100
      then 200
      else if p == 200
      then 300
      else if p == 300
      then 108
      else if p == 500
      then 508
      else 0;
  prev = λ p.
      if p == 200
      then 100
      else if p == 300
      then 200
      else if p == 108
      then 300
      else if p == 508
      then 500
      else 0;
  len = λ p. if p == 100 then 2 else 0;
}

two-IsList : IsList heap 100 (200 ∷ 300 ∷ [])
two-IsList = record {
  chain = (refl, refl, (refl, refl, (refl, refl, refl)));
  distinct = (refl, (refl, (refl, (refl, tt))));
  non_null = refl;
  count = refl;
  small = omega arith;
}

empty-IsList : IsList heap 500 []
empty-IsList = record {
  chain = (refl, refl, refl);
  distinct = (refl, (refl, tt));
  non_null = refl;
  count = refl;
  small = omega arith;
}

-- A list built, searched and emptied.
script : Run Ptr
unfolding list_init list_push_back list_push_front list_pop_front list_pop_back list_insert
    list_erase update
script =
    list_init 100
    >> (list_push_back 100 200
        >> (list_push_front 100 400
            >> (list_push_back 100 300 >> (list_pop_back 100 >> list_pop_front 100))))

abbrev result : Option (Ptr × Heap) → Ptr
result none = null
result (some (p, h)) = p

script_result : result (script heap) ≡ 400
unfolding script
script_result = refl

insert-IsRing_example :
    (list_insert 100 200 400 heap ≡ some (tt, inserted heap 100 200 400))
    × IsRing (inserted heap 100 200 400) 100 (100 ∷ 200 ∷ 400 ∷ 300 ∷ [])
insert-IsRing_example =
    insert-IsRing heap 100 (100 ∷ []) 200 (300 ∷ []) 400 two-IsList (omega arith) refl

erase-IsRing_example :
    (list_erase 100 200 heap ≡ some (200, erased heap 100 200))
    × IsRing (erased heap 100 200) 100 (100 ∷ 300 ∷ [])
erase-IsRing_example = erase-IsRing heap 100 [] 100 200 (300 ∷ []) two-IsList

replace-IsRing_run :
    (list_replace 200 400 heap ≡ some (400, replaced heap 200 400))
    × IsRing (replaced heap 200 400) 100 (100 ∷ 400 ∷ 300 ∷ [])
replace-IsRing_run = replace-IsRing heap 100 [] 100 200 (300 ∷ []) 400 two-IsList (omega arith) refl

insert_before-IsRing_run :
    (list_insert_before 100 300 400 heap ≡ some (tt, inserted heap 100 200 400))
    × IsRing (inserted heap 100 200 400) 100 (100 ∷ 200 ∷ 400 ∷ 300 ∷ [])
insert_before-IsRing_run =
    insert_before-IsRing heap 100 (100 ∷ []) 200 300 [] 400 two-IsList (omega arith) refl

push_back-IsList_run :
    (g : Heap) × (list_push_back 100 400 heap ≡ some (tt, g)) × IsList g 100 (200 ∷ 300 ∷ 400 ∷ [])
push_back-IsList_run = push_back-IsList heap 100 (200 ∷ 300 ∷ []) 400 two-IsList (omega arith) refl

push_front_run :
    (g : Heap) × (list_push_front 100 400 heap ≡ some (tt, g)) × IsList g 100 (400 ∷ 200 ∷ 300 ∷ [])
push_front_run = push_front-IsList heap 100 (200 ∷ 300 ∷ []) 400 two-IsList (omega arith) refl

pop_front-IsList_run :
    (g : Heap) × (list_pop_front 100 heap ≡ some (200, g)) × IsList g 100 (300 ∷ [])
pop_front-IsList_run = pop_front-IsList heap 100 200 (300 ∷ []) two-IsList

pop_back-IsList_run :
    (g : Heap) × (list_pop_back 100 heap ≡ some (300, g)) × IsList g 100 (200 ∷ [])
pop_back-IsList_run = pop_back-IsList heap 100 (200 ∷ []) 300 two-IsList

pop-empty_run :
    (list_pop_front 500 heap ≡ some (null, heap)) × (list_pop_back 500 heap ≡ some (null, heap))
pop-empty_run = pop-empty heap 500 empty-IsList

front_back_run : (list_front 100 heap ≡ some (200, heap)) × (list_back 100 heap ≡ some (300, heap))
front_back_run = front_back heap 100 (200 ∷ 300 ∷ []) two-IsList

list_init_run : (g : Heap) × (list_init 700 heap ≡ some (tt, g)) × IsList g 700 []
list_init_run = init-IsList heap 700 (omega arith)

find-has_run : list_elem_find 3 100 300 heap ≡ some (true, heap)
find-has_run = find-has heap 100 3 (200 ∷ 300 ∷ []) 300 two-IsList (omega arith) (omega arith)

traversal-first_run : list_traversal 3 100 (λ p. some (ltb 200 p)) heap ≡ some (300, heap)
traversal-first_run =
    traversal-first heap 100 3 (200 ∷ 300 ∷ []) (λ p. some (ltb 200 p)) (λ p. ltb 200 p)
      (refl, (refl, tt)) two-IsList (omega arith)

Apart-lists : Apart 500 (500 ∷ []) 100 (100 ∷ 200 ∷ 300 ∷ [])
Apart-lists a h = ground arith

insert-Apart_run : IsList (inserted heap 100 200 400) 500 []
insert-Apart_run =
    insert-Apart heap 100 500 (500 ∷ []) (100 ∷ []) 200 (300 ∷ []) 400 two-IsList empty-IsList
      Apart-lists refl

erase-Apart_run :
    (list_erase 100 200 heap ≡ some (200, erased heap 100 200))
    × IsList (erased heap 100 200) 500 []
erase-Apart_run =
    erase-Apart heap 100 500 (500 ∷ []) [] 100 200 (300 ∷ []) two-IsList empty-IsList Apart-lists
