-- ===== src/Vmm/Tests.antt =====
-- An address space at 100 with two areas: at 184 two pages from 0x1000 on, readable, and at 284 a
-- stack from 0x5000 to 0x8000, writable.
use atlos.Base.{
  ℕ, ◌+◌, ◌*◌, ◌<◌, ◌≤◌, ◌≡◌, ◌↔◌, refl, true, some, [], ◌∷◌, has, arith, if◌then◌else◌, ◌==◌, ℤ,
  pos,
}
use atlos.Dlist.{Ptr, null, Heap}
use atlos.Vmm.{Vmas, list_tag, do_pgfault, check_vma_sorted, vma_create}
use atlos.Vmm.Fault.{IsMm, Covers, Allows, do_pgfault-Allows}
use atlos.Vmm.Sorted.{InOrder, check_vma_sorted-InOrder}
use atlos.Vmm.Create.{vma_create-pages}

abbrev links : Heap
links = record {
  next = λ p. if p == 100 then 200 else if p == 200 then 300 else if p == 300 then 108 else 0;
  prev = λ p. if p == 200 then 100 else if p == 300 then 200 else if p == 108 then 300 else 0;
  len = λ p. if p == 100 then 2 else 0;
}

abbrev space : Vmas
space = record {
  links = links;
  mm = λ p. 100;
  st_addr = λ p. if p == 184 then 0x1000 else 0x5000;
  ed_addr = λ p. if p == 184 then 0x3000 else 0x8000;
  flag = λ p. if p == 184 then 1 else 10;
}

space-IsMm : IsMm space 100 (184 ∷ 284 ∷ [])
space-IsMm = record {
  non_null = ground arith;
  list = record {
    chain = (refl, refl, (refl, refl, (refl, refl, refl)));
    distinct = (refl, (refl, (refl, (refl, tt))));
    non_null = refl;
    count = refl;
    small = omega arith;
  };
  areas = refl;
  sorted = (omega arith, omega arith, (omega arith, omega arith, tt));
}

-- A write to the page above the guard page of the stack.
do_pgfault-Allows_example :
    (r : ℤ) × (do_pgfault 3 100 2 0x6000 space ≡ some r)
    × ((r ≡ pos 0) ↔ (
        (v : Ptr) × (has v (184 ∷ 284 ∷ []) ≡ true)
        × Covers space 0x6000 v
        × Allows space 2 0x6000 v))
do_pgfault-Allows_example =
    do_pgfault-Allows space 0x6000 3 100 2 (184 ∷ 284 ∷ []) (omega arith) space-IsMm (omega arith)

check_vma_sorted-InOrder_run :
    (r : ℤ) × (check_vma_sorted 2 100 space ≡ some r) × ((r ≡ pos 0) ↔ InOrder space 184 (284 ∷ []))
check_vma_sorted-InOrder_run =
    check_vma_sorted-InOrder space 2 100 184 (284 ∷ []) space-IsMm.list (omega arith)

vma_create-pages_run :
    (g : Vmas) × (vma_create 400 0x1234 0x2345 1 space ≡ some (400, g))
    × ((a : ℕ) × (g.st_addr 400 ≡ a * 4096))
    × ((b : ℕ) × (g.ed_addr 400 ≡ b * 4096))
    × (g.st_addr 400 ≤ 0x1234)
    × (0x1234 < g.st_addr 400 + 4096)
    × (0x2345 ≤ g.ed_addr 400)
    × (g.ed_addr 400 < 0x2345 + 4096)
    × (g.flag 400 ≡ 1)
    × (g.mm 400 ≡ null)
    × (g.links.next (list_tag 400) ≡ null)
    × (g.links.prev (list_tag 400) ≡ null)
vma_create-pages_run =
    vma_create-pages 400 0x1234 0x2345 1 space (ground arith) (omega arith) (omega arith)
      (ground arith)
