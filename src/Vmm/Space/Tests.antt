-- ===== src/Vmm/Space/Tests.antt =====
-- Runs of `mm_destroy`: of a space at 100 with the areas at 184 and 284, and of one without areas at 500.
use atlos.Base.{◌+◌, ◌≡◌, refl, none, some, List, [], ◌∷◌, arith, ◌==◌, if◌then◌else◌}
use atlos.Dlist.{Ptr, Heap}
use atlos.Dlist.Chain.{IsList}
use atlos.Vmm.Space.{Space, mm_destroy}
use atlos.Vmm.Space.Free.{mm_destroy-freed, mm_destroy_empty}

abbrev heap : Heap
heap = record {
  next = λ p. if p == 100 then 200 else if p == 200 then 300 else if p == 300 then 108 else p + 8;
  prev = λ p. if p == 200 then 100 else if p == 300 then 200 else if p == 108 then 300 else 500;
  len = λ p. if p == 100 then 2 else 0;
}

abbrev space : Space
space = record {
  links = heap;
  pgdir = λ p. 0;
  ref_count = λ p. 0;
  brk = λ p. 0;
  brk_start = λ p. 0;
}

two-IsList : IsList heap 100 (200 ∷ 300 ∷ [])
two-IsList = record {
  chain = (refl, refl, (refl, refl, (refl, refl, refl)));
  distinct = (refl, (refl, (refl, (refl, tt))));
  non_null = refl;
  count = refl;
  small = omega arith;
}

empty-IsList : IsList heap 500 []
empty-IsList = record {
  chain = (refl, refl, refl);
  distinct = (refl, (refl, tt));
  non_null = refl;
  count = refl;
  small = omega arith;
}

-- The addresses freed, the last one first.
abbrev kfree : Ptr → List Ptr → List Ptr
kfree p freed = p ∷ freed

mm_destroy-freed_example :
    (g : Heap) × (mm_destroy kfree 3 100 space [] ≡ some (g, 100 ∷ 284 ∷ 184 ∷ []))
    × IsList g 100 []
mm_destroy-freed_example =
    mm_destroy-freed kfree 3 100 200 (300 ∷ []) space [] two-IsList refl (omega arith)

mm_destroy_empty_example : mm_destroy kfree 9 500 space [] ≡ none
mm_destroy_empty_example = mm_destroy_empty kfree 9 500 space [] empty-IsList refl
