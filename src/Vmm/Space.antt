-- ===== src/Vmm/Space.antt =====
-- kern/mm/vmm.c: an address space made and destroyed. What `kmalloc` returns is an argument, and
-- `kfree` is a parameter that works on a state apart from the links.
pub mod Free
mod Tests
use atlos.Base.{
  ℕ, zero, suc, ◌+◌, ◌-◌, Bool, true, false, not, Option, none, some, ◌==◌, if◌then◌else◌, update,
}
use atlos.Dlist.{Ptr, null, Heap, Run, tail, list_init, list_front, list_erase, load_next}
use atlos.Vmm.{le2vma}

-- The fields of `vmm_t` but for `vma_set`.
pub record Space : Type 0 where
  pub links : Heap
  pub pgdir : Ptr → Ptr
  pub ref_count : Ptr → ℕ
  pub brk : Ptr → ℕ
  pub brk_start : Ptr → ℕ

pub mm_create : Ptr → Space → Option (Ptr × Space)
mm_create vmm s = if vmm == null then some (null, s) else elim (list_init vmm s.links) [
  | none ↦ none
  | some (done, links') ↦ some (
    vmm,
    record {
      links = links';
      pgdir = update s.pgdir vmm null;
      ref_count = update s.ref_count vmm 0;
      brk = update s.brk vmm 0;
      brk_start = update s.brk_start vmm 0;
    },
  )
]

module _ {S : Type 0} (kfree : Ptr → S → S) where
  -- The loop of `mm_destroy` from `elem` on.
  pub destroy_loop : ℕ → Ptr → Ptr → Heap → S → Option (Heap × S)
  destroy_loop zero l elem h s = none
  destroy_loop (suc f) l elem h s =
      if elem == tail l then some (h, s) else elim (list_erase l elem h) [
        | none ↦ none
        | some (e, h₁) ↦ elim (load_next elem h₁) [
          | none ↦ none
          | some (next, h₂) ↦ destroy_loop f l next h₂ (kfree (le2vma elem) s)
        ]
      ]

  -- `none` is a fault, a failed assertion, or fuel that is used up.
  pub mm_destroy : ℕ → Ptr → Space → S → Option (Heap × S)
  unfolding destroy_loop
  mm_destroy f mm sp s =
      if mm == null
      then some (sp.links, s)
      else if not (sp.ref_count mm == 0)
      then none
      else elim (list_front mm sp.links) [
        | none ↦ none
        | some (elem, h) ↦ elim (destroy_loop f mm elem h s) [
          | none ↦ none
          | some (h', s') ↦ some (h', kfree mm s')
        ]
      ]
