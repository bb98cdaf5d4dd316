-- ===== src/Vmm/Add.antt =====
-- kern/mm/vmm.c: `vma_add`, and the merging of areas. `kfree` works on a state apart from the areas;
-- what a freed area held can still be read. The `none` of a part is a failed assertion, an access
-- through NULL or the end of the rounds.
pub mod Apart
pub mod Merge
mod Tests
use atlos.Base.{
  ℕ, zero, suc, ◌+◌, ◌-◌, Bool, true, false, ◌&&◌, ◌||◌, not, Option, none, some, ltb, ◌==◌,
  if◌then◌else◌, update, min, max, ℤ, pos, negsuc, is_zero,
}
use atlos.Dlist.{
  Ptr, null, Heap, list_back, list_push_back, list_insert_before, list_erase, list_replace,
}
use atlos.Vmm.{Vmas, list_tag, le2vma, vma_merge_check, find_vma}

-- How `vma_add` ends. `null_read` is the read of `vma2->flag` in `vma_merge_check` through a NULL
-- `vma2`; `stops` is all else that does not return: a failed assertion, an access through NULL in a
-- list, or the end of the rounds.
pub data Ending {ℓ} (A : Type ℓ) : Type ℓ where
  returns : A → Ending A
  null_read : Ending A
  stops : Ending A

-- `vma_merge_check` of an area that may be NULL; `none` is the read through NULL.
abbrev pub checked : Vmas → Ptr → Ptr → Option ℤ
checked s vma1 vma2 =
    if (vma1 == null) || (vma2 == null) then none else some (vma_merge_check s vma1 vma2)

module _ {S : Type 0} (kfree : Ptr → S → S) where
  abbrev pub Result : Type 0
  Result = Ending (ℤ × (Vmas × S))

  -- The links and owners after `free` has left its list: `keep` takes its place, unless it is in the
  -- list already.
  pub take_place : Ptr → Ptr → Vmas → Option Vmas
  take_place keep free s =
      if s.mm free == null
      then some s
      else if s.mm keep == null
      then elim (list_replace (list_tag free) (list_tag keep) s.links) [
        | none ↦ none
        | some (e, h) ↦ some (record s { links = h; mm = update s.mm keep (s.mm free) })
      ]
      else elim (list_erase (s.mm free) (list_tag free) s.links) [
        | none ↦ none
        | some (e, h) ↦ some (record s { links = h })
      ]

  pub merge_vma : Ptr → Ptr → Vmas × S → Option (Vmas × S)
  unfolding take_place
  merge_vma keep free (s, k) =
      let grown : Vmas = record s {
        st_addr = update s.st_addr keep (min (s.st_addr keep) (s.st_addr free));
        ed_addr = update s.ed_addr keep (max (s.ed_addr keep) (s.ed_addr free));
      } in
      let placed : Option (Vmas × S) = elim (take_place keep free grown) [
        | none ↦ none
        | some s' ↦ some (s', kfree free k)
      ] in
      if (s.mm keep == null) || (s.mm free == null) || (s.mm keep == s.mm free)
      then placed
      else none

  -- The flags of the areas from `tmp` to `ed_tag`, compared with those of the new area.
  pub same_flags : ℕ → Vmas → Ptr → Ptr → Ptr → Ptr → Option Bool
  same_flags zero s nvma ed_tag tmp tnxt = none
  same_flags (suc f) s nvma ed_tag tmp tnxt =
      let tmp_flag = s.flag (le2vma tmp) in
      let rest = same_flags f s nvma ed_tag tnxt (s.links.next tnxt) in
      if tmp == ed_tag
      then some true
      else if not (tmp_flag == s.flag (le2vma tnxt)) || not (tmp_flag == s.flag nvma)
      then some false
      else if tnxt == null
      then none
      else rest

  -- The merges of the areas from `tmp` up to `stop`.
  pub merge_loop : ℕ → Ptr → Ptr → Ptr → Vmas × S → Option (Vmas × S)
  unfolding merge_vma
  merge_loop zero nvma stop tmp (s, k) = none
  merge_loop (suc f) nvma stop tmp (s, k) =
      let merged : Option (Vmas × S) = elim (merge_vma nvma (le2vma tmp) (s, k)) [
        | none ↦ none
        | some (s', k') ↦ merge_loop f nvma stop (s'.links.next tmp) (s', k')
      ] in
      if tmp == stop
      then some (s, k)
      else if (tmp == null) || not (is_zero (vma_merge_check s nvma (le2vma tmp)))
      then none
      else merged

  pub try_merge_vma_range : ℕ → Ptr → Ptr → Ptr → Vmas × S → Result
  unfolding same_flags merge_loop
  try_merge_vma_range f nvma st_vma ed_vma (s, k) =
      let st_tag = list_tag st_vma in
      let ed_tag = list_tag ed_vma in
      elim (same_flags f s nvma ed_tag st_tag (s.links.next st_tag)) [
        | none ↦ stops
        | some false ↦ returns (negsuc 0, (s, k))
        | some true ↦ elim (merge_loop f nvma (s.links.next ed_tag) st_tag (s, k)) [
          | none ↦ stops
          | some r ↦ returns (pos 0, r)
        ]
      ]

  -- `done:`, after an operation on the list or a merge.
  done : Ptr → Ptr → Vmas × S → Result
  done mm vma (s, k) = returns (pos 0, (record s { mm = update s.mm vma mm }, k))

  linked : Ptr → Ptr → S → Vmas → Option (Unit {0} × Heap) → Result
  unfolding done
  linked mm vma k s none = stops
  linked mm vma k s (some (e, h)) = done mm vma (record s { links = h }, k)

  pub merged : Ptr → Ptr → Option (Vmas × S) → Result
  unfolding done
  merged mm vma none = stops
  merged mm vma (some r) = done mm vma r

  -- `retry:`
  pub retry : ℕ → Ptr → Ptr → Ptr → Ptr → Vmas × S → Result
  unfolding try_merge_vma_range linked merged
  retry zero mm vma prev next (s, k) = stops
  retry (suc f) mm vma prev next (s, k) =
      let same : Result = elim (checked s vma next) [
        | none ↦ null_read
        | some code ↦
            if not (is_zero code)
            then linked mm vma k s (list_insert_before mm (list_tag prev) (list_tag vma) s.links)
            else merged mm vma (merge_vma vma prev (s, k))
      ] in
      let from_back : Result = elim (list_back mm s.links) [
        | none ↦ stops
        | some (e, h) ↦ retry f mm vma prev (le2vma e) (record s { links = h }, k)
      ] in
      let from_prev = retry f mm vma prev (le2vma (s.links.prev (list_tag next))) (s, k) in
      let range : Result = elim (try_merge_vma_range f vma prev next (s, k)) [
        | stops ↦ stops
        | null_read ↦ null_read
        | returns (code, r) ↦ if is_zero code then done mm vma r else returns (negsuc 1, r)
      ] in
      if (prev == next) && not (prev == null)
      then same
      else if next == null
      then from_back
      else if prev == null
      then stops
      else if ltb (s.ed_addr vma) (s.st_addr next)
      then from_prev
      else range

  -- `vma_add` with what `find_vma` returns.
  pub add_with : ℕ → Ptr → Ptr → Ptr → Ptr → Vmas × S → Result
  unfolding retry
  add_with f mm vma prev next (s, k) =
      let last : Result = elim (checked s vma next) [
        | none ↦ null_read
        | some code ↦
            if not (is_zero code)
            then returns (negsuc 0, (s, k))
            else merged mm vma (merge_vma vma prev (s, k))
      ] in
      if (prev == null) && (next == null)
      then linked mm vma k s (list_push_back mm (list_tag vma) s.links)
      else if not (prev == null) && (next == null)
      then last
      else retry f mm vma prev next (s, k)

  pub vma_add : ℕ → Ptr → Ptr → Vmas × S → Result
  unfolding add_with
  vma_add f mm vma (s, k) =
      let found : Result = elim (find_vma f mm (s.ed_addr vma) s) [
        | none ↦ stops
        | some next ↦ elim (find_vma f mm (s.st_addr vma) s) [
          | none ↦ stops
          | some prev ↦ add_with f mm vma prev next (s, k)
        ]
      ] in
      if (mm == null) || (vma == null) then stops else found
