-- ===== src/Vmm.antt =====
-- kern/mm/vmm.c: the virtual memory areas of an address space, a list sorted by their ends, and the
-- decision on a page fault. A `vma_t *` is its address, with `list_tag` 16 bytes behind it; the list
-- `vma_set` of a `vmm_t` is at the start of it.
pub mod Fault
pub mod Sorted
pub mod Create
pub mod Space
pub mod Add
mod Tests
use atlos.Base.{
  ℕ, zero, suc, ◌+◌, ◌-◌, ◌%◌, ◌^◌, Bool, true, false, ◌&&◌, ◌||◌, not, Option, none, some, ltb,
  leb, ◌==◌, if◌then◌else◌, update, bit_and, ℤ, pos, negsuc,
}
use atlos.Dlist.{Ptr, null, Heap, tail, list_front, list_traversal, list_elem_init}
use atlos.Pmm.{page_size, round_down, round_up}

pub record Vmas : Type 0 where
  pub links : Heap
  pub mm : Ptr → Ptr
  pub st_addr : Ptr → ℕ
  pub ed_addr : Ptr → ℕ
  pub flag : Ptr → ℕ

abbrev pub list_tag : Ptr → Ptr
list_tag vma = vma + 16

abbrev pub le2vma : Ptr → Ptr
le2vma le = le - 16

abbrev pub vm_write : ℕ
vm_write = 2

abbrev pub vm_stack : ℕ
vm_stack = 8

-- `VM_READ | VM_EXEC`
abbrev pub vm_read_exec : ℕ
vm_read_exec = 5

pub vma_merge_check : Vmas → Ptr → Ptr → ℤ
vma_merge_check s vma1 vma2 =
    if not (s.flag vma1 == s.flag vma2)
    then negsuc 0
    else if ltb (s.ed_addr vma2) (s.st_addr vma1) || ltb (s.ed_addr vma1) (s.st_addr vma2)
    then negsuc 1
    else pos 0

-- `vma_create`, with what `kmalloc` returns as an argument; the outer `none` is a failed assertion.
pub vma_create : Ptr → ℕ → ℕ → ℕ → Vmas → Option (Ptr × Vmas)
vma_create vma vm_start vm_end flags s =
    if not (ltb vm_start vm_end) || (flags == 0)
    then none
    else if vma == null
    then some (null, s)
    else elim (list_elem_init (list_tag vma) s.links) [
      | none ↦ none
      | some (done, links') ↦ some (
        vma,
        record {
          links = links';
          mm = update s.mm vma null;
          st_addr = update s.st_addr vma (round_down vm_start page_size);
          ed_addr = update s.ed_addr vma (round_up vm_end page_size);
          flag = update s.flag vma flags;
        },
      )
    ]

-- `none` is the failed assertion that neither argument is NULL; the address is the second one.
pub find_vma_func : Vmas → ℕ → Ptr → Option Bool
find_vma_func s addr le =
    if (le == null) || (addr == 0) then none else some (leb addr (s.ed_addr (le2vma le)))

-- `find_vma`: the area or NULL; `none` is a failed assertion, also that of `find_vma_func` on the
-- address 0, or fuel that is used up.
pub find_vma : ℕ → Ptr → ℕ → Vmas → Option Ptr
unfolding find_vma_func
find_vma fuel mm addr s =
    if mm == null then none else elim (list_traversal fuel mm (find_vma_func s addr) s.links) [
      | none ↦ none
      | some (le, links') ↦ some (if le == null then null else le2vma le)
    ]

-- The part of `do_pgfault` behind its first test, for the area found.
pub pgfault_check : Vmas → Ptr → ℕ → ℕ → ℤ
pgfault_check s vma error_code addr =
    let kind = error_code % 4 in
    if not (bit_and (s.flag vma) vm_stack == 0) && ltb addr ((s.st_addr vma + page_size) % 2 ^ 32)
    then negsuc 1
    else if leb 2 kind
    then (if bit_and (s.flag vma) vm_write == 0 then negsuc 2 else pos 0)
    else if kind == 1
    then negsuc 1
    else if bit_and (s.flag vma) vm_read_exec == 0
    then negsuc 1
    else pos 0

pub do_pgfault : ℕ → Ptr → ℕ → ℕ → Vmas → Option ℤ
unfolding find_vma pgfault_check
do_pgfault fuel mm error_code addr s = elim (find_vma fuel mm addr s) [
  | none ↦ none
  | some vma ↦ some (
      if (vma == null) || ltb addr (s.st_addr vma)
      then negsuc 0
      else pgfault_check s vma error_code addr)
]

-- The loop of `check_vma_sorted`.
pub sorted_loop : ℕ → Vmas → Ptr → Ptr → Ptr → Option ℤ
sorted_loop zero s mm cur nxt = none
sorted_loop (suc f) s mm cur nxt =
    let vcur = le2vma cur in
    let vnxt = le2vma nxt in
    let rest = sorted_loop f s mm nxt (s.links.next nxt) in
    if nxt == tail mm
    then some (pos 0)
    else if leb (s.ed_addr vcur) (s.st_addr vcur) || leb (s.ed_addr vnxt) (s.st_addr vnxt)
    then some (negsuc 0)
    else if leb (s.st_addr vnxt) (s.ed_addr vcur)
    then some (negsuc 1)
    else rest

-- `none` is fuel that is used up, or a list that is empty: `cur` is NULL then, and is read.
pub check_vma_sorted : ℕ → Ptr → Vmas → Option ℤ
unfolding sorted_loop
check_vma_sorted fuel mm s = elim (list_front mm s.links) [
  | none ↦ none
  | some (cur, links') ↦ if cur == null then none else sorted_loop fuel s mm cur (s.links.next cur)
]
