-- ===== src/Buddy.antt =====
-- kern/mm/buddy.c: the buddy allocator over a complete binary tree in an array. An element pointer
-- is its index, and a size is a number of pages.
pub mod Node
pub mod Fix
pub mod Tree
pub mod Change
pub mod Find
pub mod Init
pub mod Phantom
pub mod Pages
mod Tests
use atlos.Base.{
  ℕ, zero, suc, ◌+◌, ◌-◌, ◌*◌, ◌/◌, ◌%◌, ◌^◌, Bool, true, false, ◌&&◌, Option, none, some, List, [],
  ◌∷◌, ltb, leb, ◌==◌, if◌then◌else◌, update,
}
use atlos.Pmm.{is_pow_of_2, next_pow_of_2}

-- `buddy_t`: the `elem_size` of each tree element, and the tree's size and level.
pub record Buddy : Type 0 where
  pub elem_size : ℕ → ℕ
  pub size : ℕ
  pub level : ℕ

abbrev pub buddy_parent : ℕ → ℕ
buddy_parent index = (index - 1) / 2

abbrev pub buddy_left : ℕ → ℕ
buddy_left index = index * 2 + 1

abbrev pub buddy_right : ℕ → ℕ
buddy_right index = index * 2 + 2

-- The rounds of `for (; size; ++res) size >>= 1;` on an int that is not negative; for a negative one,
-- whose shifts end at -1, the loop of the source does not end.
pub shifts : ℕ → ℕ → ℕ → ℕ
shifts zero size res = res
shifts (suc f) size res =
    let rest = shifts f (size / 2) (res + 1) in if size == 0 then res else rest

-- `size2level` and `index2level`, of a size from 1 and an index from 0 on, below 2^31 as ints are.
pub size2level : ℕ → ℕ
unfolding shifts
size2level size = shifts 32 size 0 - 1

pub index2level : ℕ → ℕ
unfolding shifts
index2level index = shifts 32 (index + 1) 0 - 1

-- What a parent shows for its two halves.
pub combine : ℕ → ℕ → ℕ
combine left right = if left == right then left * 2 else if ltb right left then left else right

-- The loop of `fix_parent_buddy_size`, from `parent` up to the root.
pub fix_loop : ℕ → (ℕ → ℕ) → ℕ → ℕ → ℕ
fix_loop zero m parent = m
fix_loop (suc f) m parent =
    let m' = update m parent (combine (m (buddy_left parent)) (m (buddy_right parent))) in
    let rest = fix_loop f m' (buddy_parent parent) in if parent == 0 then m' else rest

-- An index is more rounds than there are elements above it.
pub fix_parent_buddy_size : (ℕ → ℕ) → ℕ → ℕ → ℕ
unfolding fix_loop
fix_parent_buddy_size m index = if index == 0 then m else fix_loop index m (buddy_parent index)

-- The loop of `find_buddy_slot`: the index found, or `none` for -1, with the elements as they are
-- then. The outer `none` says that the rounds have run out. The test `clevel == level` compares
-- with `bd->level - size2level(pages)`, as an equation of sums.
pub find_loop : ℕ → Buddy → ℕ → ℕ → ℕ → Option (Option ℕ × (ℕ → ℕ))
find_loop zero bd pages index clevel = none
find_loop (suc f) bd pages index clevel =
    let m = bd.elem_size in
    let go_left = find_loop f bd pages (buddy_left index) (clevel + 1) in
    let go_right = find_loop f bd pages (buddy_right index) (clevel + 1) in
    let again = find_loop f bd pages index (clevel + 1) in
    if (m index == pages) && (clevel + size2level pages == bd.level)
    then some (some index, fix_parent_buddy_size (update m index 0) index)
    else if ltb (m index) pages
    then some (none, m)
    else if leb pages (m (buddy_left index))
    then go_left
    else if leb pages (m (buddy_right index))
    then go_right
    else again

-- One round for each level, and one more.
pub find_buddy_slot : Buddy → ℕ → Option (Option ℕ × (ℕ → ℕ))
unfolding find_loop
find_buddy_slot bd pages = find_loop (bd.level + 1) bd pages 0 0

-- `buddy_alloc`: the element, or `none` for NULL. Index 0 counts as a failure, as in `> 0`.
pub buddy_alloc : Buddy → ℕ → Option (Option ℕ × Buddy)
buddy_alloc bd pages =
    if pages == 0 then some (none, bd) else elim (find_buddy_slot bd (next_pow_of_2 pages)) [
      | none ↦ none
      | some (none, m) ↦ some (none, record bd { elem_size = m })
      | some (some index, m) ↦
          some (if ltb 0 index then some index else none, record bd { elem_size = m })
    ]

-- `buddy_free`; `none` is a failed assertion.
pub buddy_free : Buddy → ℕ → ℕ → Option Buddy
buddy_free bd index pages =
    let m = bd.elem_size in
    let page_align = next_pow_of_2 pages in
    if m index == 0
    then some (record bd { elem_size = fix_parent_buddy_size (update m index page_align) index })
    else if m index == page_align
    then some bd
    else none

-- The page number of an element.
pub page_of : Buddy → ℕ → ℕ
page_of bd index =
    let level = index2level index in
    let level_size = 2 ^ (bd.level - level) in
    let off_index = index + 1 - 2 ^ level in level_size * off_index

pub alloc_page_buddy : Buddy → ℕ → Option (Option ℕ × Buddy)
unfolding buddy_alloc
alloc_page_buddy bd pages = elim (buddy_alloc bd pages) [
  | none ↦ none
  | some (none, bd') ↦ some (none, bd')
  | some (some index, bd') ↦ some (some (page_of bd' index), bd')
]

-- The element that `free_page_buddy` frees.
pub index_of : Buddy → ℕ → ℕ → ℕ
index_of bd page_index pages =
    let rlevel = size2level pages in
    let off_index = page_index / 2 ^ rlevel in 2 ^ (bd.level - rlevel) - 1 + off_index

pub free_page_buddy : Buddy → ℕ → ℕ → Option Buddy
unfolding buddy_free
free_page_buddy bd page_index pages =
    let pages' = next_pow_of_2 pages in buddy_free bd (index_of bd page_index pages') pages'

-- The loop of `buddy_init` over the elements, level by level.
pub init_loop : ℕ → ℕ → (ℕ → ℕ) → ℕ → ℕ → ℕ → ℕ → ℕ
init_loop zero i m level_size level_len cur = m
init_loop (suc n) i m level_size level_len cur =
    let m' = update m i level_size in
    let turn = cur + 1 == level_len in
    init_loop n (i + 1) m' (if turn then level_size / 2 else level_size)
      (if turn then level_len * 2 else level_len) (if turn then 0 else cur + 1)

-- `buddy_init` without its last line, the call of the self-test `buddy_check`. `none` is the failed
-- assertion, and the two sizes that pass it but have no tree: 0, whose level is -1, and 2^31, which is
-- negative as an int, so that the loop of `size2level` does not end.
pub buddy_init : ℕ → Option Buddy
unfolding init_loop
buddy_init size =
    if is_pow_of_2 size && ltb 0 size && ltb size (2 ^ 31)
    then some (record {
      elem_size = init_loop (size * 2 - 1) 0 (λ _. 0) size 1 0;
      size = size;
      level = size2level size;
    })
    else none
