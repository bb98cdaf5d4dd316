-- ===== src/Vmm/Add/Tests.antt =====
-- Two areas, at 1000 and 2000, from 0x1000 to 0x2000 and from 0x10000 to 0x20000, and a third one.
use atlos.Base.{ℕ, ◌≡◌, refl, [], ◌∷◌, ◌++◌, List, arith, ◌==◌, if◌then◌else◌, pos, min}
use atlos.Dlist.{Ptr, Heap}
use atlos.Vmm.{Vmas}
use atlos.Vmm.Fault.{IsMm}
use atlos.Vmm.Add.{returns, null_read, vma_add}
use atlos.Vmm.Add.Apart.{vma_add-IsMm}
use atlos.Vmm.Add.Merge.{vma_add_past_end, vma_add-IsMm_grown}

abbrev heap : Heap
heap = record {
  next = λ p. if p == 100 then 1016 else if p == 1016 then 2016 else if p == 2016 then 108 else 0;
  prev = λ p. if p == 1016 then 100 else if p == 2016 then 1016 else if p == 108 then 2016 else 0;
  len = λ p. if p == 100 then 2 else 0;
}

-- The new area is at 3000.
abbrev areas : ℕ → ℕ → Vmas
areas st ed = record {
  links = heap;
  mm = λ p. if p == 3000 then 0 else 100;
  st_addr = λ p. if p == 1000 then 0x1000 else if p == 2000 then 0x10000 else st;
  ed_addr = λ p. if p == 1000 then 0x2000 else if p == 2000 then 0x20000 else ed;
  flag = λ p. 1;
}

areas-IsMm : (st ed : ℕ) → IsMm (areas st ed) 100 (1000 ∷ 2000 ∷ [])
areas-IsMm st ed = record {
  non_null = ground arith;
  list = record {
    chain = (refl, refl, (refl, refl, (refl, refl, refl)));
    distinct = (refl, (refl, (refl, (refl, tt))));
    non_null = refl;
    count = refl;
    small = omega arith;
  };
  areas = refl;
  sorted = (omega arith, omega arith, (omega arith, omega arith, tt));
}

-- What is freed, the last first.
abbrev freed : Ptr → List Ptr → List Ptr
freed p ps = p ∷ ps

vma_add-IsMm_example :
    (s' : Vmas) × (vma_add freed 4 100 3000 (areas 0x5000 0x6000, []) ≡ returns (pos 0, (s', [])))
    × IsMm s' 100 ((1000 ∷ []) ++ 3000 ∷ 2000 ∷ [])
    × (s'.mm 3000 ≡ 100)
vma_add-IsMm_example =
    vma_add-IsMm (areas 0x5000 0x6000) 3000 freed 3 100 [] (1000 ∷ []) (2000 ∷ [])
      (areas-IsMm 0x5000 0x6000) (ground arith) refl (omega arith) (omega arith) (omega arith, tt)
      (omega arith, omega arith, tt) (omega arith)

vma_add_past_end_example : vma_add freed 4 100 3000 (areas 0x18000 0x30000, []) ≡ null_read
vma_add_past_end_example =
    vma_add_past_end (areas 0x18000 0x30000) 3000 freed 3 100 [] (1000 ∷ []) 2000
      (areas-IsMm 0x18000 0x30000) (ground arith) (omega arith, tt) (omega arith) (omega arith)
      (omega arith) (omega arith)

vma_add-IsMm_grown_example :
    (s' : Vmas) × (vma_add freed 4 100 3000 (areas 0xf000 0x18000, [])
      ≡ returns (pos 0, (s', 2000 ∷ [])))
    × IsMm s' 100 ((1000 ∷ []) ++ 3000 ∷ [])
    × (s'.st_addr 3000 ≡ min 0xf000 0x10000)
    × (s'.ed_addr 3000 ≡ 0x20000)
    × (s'.mm 3000 ≡ 100)
vma_add-IsMm_grown_example =
    vma_add-IsMm_grown (areas 0xf000 0x18000) 3000 freed 3 100 [] (1000 ∷ []) 2000 []
      (areas-IsMm 0xf000 0x18000) (ground arith) refl refl refl refl refl (omega arith, tt)
      (omega arith) (omega arith) (omega arith) (omega arith) (omega arith)
