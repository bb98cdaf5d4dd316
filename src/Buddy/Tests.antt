-- ===== src/Buddy/Tests.antt =====
-- The buddy allocator on a pool of eight pages, and the theorems there.
use atlos.Base.{
  ℕ, ◌-◌, ◌^◌, ◌≡◌, refl, ◌<◌, ◌≤◌, ◌⊎◌, arith, Option, none, some, List, [], ◌∷◌, update, get_or,
  IsJust,
}
use atlos.Pmm.{next_pow_of_2}
use atlos.Buddy.{
  Buddy, buddy_init, init_loop, alloc_page_buddy, free_page_buddy, page_of, index_of,
  find_buddy_slot, find_loop, fix_parent_buddy_size, combine, size2level, index2level,
}
use atlos.Buddy.Node.{at}
use atlos.Buddy.Tree.{IsTree}
use atlos.Buddy.Change.{changed, take-IsTree}
use atlos.Buddy.Find.{NoPhantom, Found, find_buddy_slot-Found}
use atlos.Buddy.Init.{built, built-IsTree, built-NoPhantom, buddy_init-IsTree}
use atlos.Buddy.Pages.{
  Block, alloc_page-Block, alloc_page_whole, free_page-IsTree, index_of-page_of,
}
use atlos.Buddy.Phantom.{find_phantom, find_buddy_slot-ends}

buddy_init-IsTree_example :
    (bd : Buddy) × (buddy_init 2048 ≡ some bd)
    × (bd.level ≡ 11)
    × IsTree 11 bd.elem_size
    × NoPhantom 11 bd.elem_size
    × ((k p : ℕ) → k ≤ 11 → p < 2 ^ k → bd.elem_size (at k p) ≡ 2 ^ (11 - k))
buddy_init-IsTree_example = buddy_init-IsTree 11 (omega arith)

-- The pool as `buddy_init` builds it, and the pool with the pages 0 and 1 handed out.
abbrev fresh : Buddy
fresh = record { elem_size = built 3; size = 8; level = 3 }

abbrev lent : Buddy
lent = record fresh { elem_size = changed (built 3) 2 0 0 }

-- Pages 0 and 2 are free, all others handed out one by one.
abbrev scattered : Buddy
scattered = record {
  elem_size = λ i. get_or (2 ∷ 2 ∷ 0 ∷ 1 ∷ 1 ∷ 0 ∷ 0 ∷ 1 ∷ 0 ∷ 1 ∷ []) i 0;
  size = 8;
  level = 3;
}

-- What the allocations of a list of sizes return, one after the other.
alloc_all : Buddy → List ℕ → List (Option ℕ)
unfolding alloc_page_buddy page_of find_buddy_slot fix_parent_buddy_size combine size2level
    index2level next_pow_of_2 update
alloc_all bd [] = []
alloc_all bd (n ∷ ns) = elim (alloc_page_buddy bd n) [
  | none ↦ []
  | some (r, bd') ↦ r ∷ alloc_all bd' ns
]

first_allocations :
    alloc_all fresh (1 ∷ 2 ∷ 1 ∷ 3 ∷ 1 ∷ []) ≡ some 0 ∷ some 2 ∷ some 1 ∷ some 4 ∷ none ∷ []
unfolding alloc_all init_loop
first_allocations = refl

-- Two pages are asked for: page 0 is handed out for them, though page 1 is in use.
scattered_allocation : alloc_all scattered (2 ∷ []) ≡ some 0 ∷ []
unfolding alloc_all
scattered_allocation = refl

full_block : fresh.elem_size (at 2 0) ≡ 2
unfolding init_loop update
full_block = refl

lent-IsTree : IsTree 3 lent.elem_size
lent-IsTree = take-IsTree 3 (built 3) 2 0 (built-IsTree 3) (omega arith) (omega arith) full_block

lent_block :
    (lent.elem_size (at 2 0) ≡ 0) × (lent.elem_size (at 3 0) ≡ 1) × (lent.elem_size (at 3 1) ≡ 1)
unfolding changed init_loop update fix_parent_buddy_size combine
lent_block = (refl, refl, refl)

three_is_four : next_pow_of_2 3 ≡ 2 ^ 2
unfolding next_pow_of_2
three_is_four = refl

two_is_two : next_pow_of_2 2 ≡ 2 ^ 1
unfolding next_pow_of_2
two_is_two = refl

eight_is_eight : next_pow_of_2 8 ≡ 2 ^ 3
unfolding next_pow_of_2
eight_is_eight = refl

all_free : fresh.elem_size 0 ≡ 2 ^ 3
unfolding init_loop update
all_free = refl

find_buddy_slot-Found_run :
    ((4 ≤ fresh.elem_size 0) × Found 3 2 fresh.elem_size (find_buddy_slot fresh 4))
    ⊎ ((fresh.elem_size 0 < 4) × (find_buddy_slot fresh 4 ≡ some (none, fresh.elem_size)))
find_buddy_slot-Found_run =
    find_buddy_slot-Found fresh 2 (built-IsTree 3) (built-NoPhantom 3) (omega arith) (omega arith)

alloc_page-Block_example :
    ((4 ≤ fresh.elem_size 0) × Block fresh 2 (alloc_page_buddy fresh 3))
    ⊎ ((fresh.elem_size 0 < 4) × (alloc_page_buddy fresh 3 ≡ some (none, fresh)))
alloc_page-Block_example =
    alloc_page-Block fresh 3 2 (built-IsTree 3) (built-NoPhantom 3) (omega arith) (omega arith)
      (omega arith) three_is_four

alloc_page_whole_example :
    (after : ℕ → ℕ) × (alloc_page_buddy fresh 8 ≡ some (none, record fresh { elem_size = after }))
    × (after 0 ≡ 0)
alloc_page_whole_example =
    alloc_page_whole fresh 8 (built-IsTree 3) (built-NoPhantom 3) (omega arith) (omega arith)
      eight_is_eight all_free

free_page-IsTree_example :
    (free_page_buddy lent 0 2 ≡ some (record lent { elem_size = changed lent.elem_size 2 0 2 }))
    × IsTree 3 (changed lent.elem_size 2 0 2)
free_page-IsTree_example =
    free_page-IsTree lent 2 1 0 lent-IsTree (omega arith) (omega arith) (omega arith) two_is_two
      lent_block.0 (λ _. (lent_block.1, lent_block.2))

index_of-page_of_run : index_of fresh (page_of fresh (at 2 3)) 2 ≡ at 2 3
index_of-page_of_run = index_of-page_of fresh 1 3 (omega arith) (omega arith) (omega arith)

find_phantom_example :
    find_loop 4 scattered 2 1 1 ≡ some (some 1, changed scattered.elem_size 1 0 0)
find_phantom_example =
    find_phantom scattered 1 1 0 (omega arith) (omega arith) refl (omega arith) (omega arith)

find_buddy_slot-ends_example : IsJust (find_buddy_slot fresh 4)
find_buddy_slot-ends_example =
    find_buddy_slot-ends fresh 2 (built-IsTree 3) (omega arith) (omega arith)
