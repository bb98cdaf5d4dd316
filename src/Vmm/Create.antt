-- ===== src/Vmm/Create.antt =====
-- `vma_create`.
use atlos.Base.{ℕ, ◌+◌, ◌*◌, ◌^◌, ◌<◌, ◌≤◌, ◌≡◌, ◌≢◌, some, arith, update, update_self, ◌∙◌}
use atlos.Dlist.{null, list_elem_init}
use atlos.Vmm.{Vmas, vma_create, list_tag}
use atlos.Pmm.{round_down, round_up}
use atlos.Pmm.Round.{round_down-IsFloor, round_up-IsCeil}

-- If `kmalloc` gives memory, `vma_create` of addresses in order, the end at most a page below 2^32,
-- and of flags other than 0 makes an area of whole pages that holds the addresses, and less than a
-- page more on either side, in no address space, with the flags and with its links cleared.
pub vma_create-pages :
    (vma vm_start vm_end flags : ℕ) (s : Vmas)
    → vma ≢ null
    → vm_start < vm_end
    → vm_end + 4095 < 2 ^ 32
    → flags ≢ 0
    → (g : Vmas) × (vma_create vma vm_start vm_end flags s ≡ some (vma, g))
      × ((a : ℕ) × (g.st_addr vma ≡ a * 4096))
      × ((b : ℕ) × (g.ed_addr vma ≡ b * 4096))
      × (g.st_addr vma ≤ vm_start)
      × (vm_start < g.st_addr vma + 4096)
      × (vm_end ≤ g.ed_addr vma)
      × (g.ed_addr vma < vm_end + 4096)
      × (g.flag vma ≡ flags)
      × (g.mm vma ≡ null)
      × (g.links.next (list_tag vma) ≡ null)
      × (g.links.prev (list_tag vma) ≡ null)
unfolding vma_create list_elem_init
vma_create-pages vma vm_start vm_end flags s there order fits some_flag =
    let floor = round_down-IsFloor 12 vm_start (omega arith) (omega arith) in
    let ceil = round_up-IsCeil 12 vm_end (omega arith) (omega arith) in
    let g : Vmas = record {
      links = record {
        next = update s.links.next (vma + 16) null;
        prev = update s.links.prev (vma + 16) null;
        len = s.links.len;
      };
      mm = update s.mm vma null;
      st_addr = update s.st_addr vma (round_down vm_start 4096);
      ed_addr = update s.ed_addr vma (round_up vm_end 4096);
      flag = update s.flag vma flags;
    } in
    let st : g.st_addr vma ≡ round_down vm_start 4096 = update_self _ vma _ in
    let ed : g.ed_addr vma ≡ round_up vm_end 4096 = update_self _ vma _ in
    (
      g,
      ground arith,
      (floor.quotient, st ∙ floor.multiple),
      (ceil.quotient, ed ∙ ceil.multiple),
      omega (arith, st, floor.below),
      omega (arith, st, floor.tight),
      omega (arith, ed, ceil.above),
      omega (arith, ed, ceil.tight),
      update_self _ vma _,
      update_self _ vma _,
      update_self _ (vma + 16) _,
      update_self _ (vma + 16) _,
    )
