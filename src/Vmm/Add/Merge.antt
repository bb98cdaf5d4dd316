-- ===== src/Vmm/Add/Merge.antt =====
-- `vma_add` of an area that meets one other, and of one that reaches behind the last.
use atlos.Base.{
  ℕ, suc, ◌<◌, ◌≤◌, ◌≡◌, ◌≢◌, refl, false, some, List, [], ◌∷◌, ◌++◌, map, length, has, has-append,
  arith, pos, sym, ◌∙◌, ap, ne→==, ==_refl, update, update_self, update_ne, min, max,
}
use mathlib.Core.Path.{subst}
use atlos.Dlist.{Ptr, null, Heap, tail, list_replace}
use atlos.Dlist.Chain.{IsList}
use atlos.Dlist.Ends.{init_of, last_of}
use atlos.Dlist.Replace.{replace-IsRing, replaced}
use atlos.Vmm.{Vmas, list_tag, vma_merge_check}
use atlos.Vmm.Fault.{SortedFrom, IsMm, first_area, find_vma-first}
use atlos.Vmm.Add.{
  returns, null_read, vma_add, add_with, retry, merged, merge_vma, take_place, done,
}
use atlos.Vmm.Add.Apart.{
  AllBelow, first_area-append, first_area-above, below_more, found, tag_split,
}

AllBelow-append :
    (s : Vmas) (addr : ℕ) (xs : List Ptr) (y : Ptr)
    → AllBelow s addr xs
    → s.ed_addr y < addr
    → AllBelow s addr (xs ++ y ∷ [])
AllBelow-append s addr [] y below lt = (lt, tt)
AllBelow-append s addr (x ∷ xs) y below lt = (below.0, AllBelow-append s addr xs y below.1 lt)

first_area-none :
    (s : Vmas) (addr : ℕ) (xs : List Ptr) → AllBelow s addr xs → first_area s addr xs ≡ null
first_area-none s addr [] below = refl
first_area-none s addr (x ∷ xs) below = ground (arith, below, first_area-none s addr xs below.1)

module _ (s : Vmas) (vma : Ptr) {S : Type 0} (kfree : Ptr → S → S) (f : ℕ) (mm : Ptr) (k : S) where
  past_run : (y : Ptr) → y ≢ null → add_with kfree (suc f) mm vma y null (s, k) ≡ null_read
  unfolding add_with
  past_run y ne = rw (add_with, ne→== y null ne) (ground arith)

  -- If a new area does not start at 0, starts behind the ends of all areas of an address space but the
  -- last, not behind the end of the last, and ends behind it, `vma_add`, with one round more than there
  -- are areas, ends at the read of the flags of an area through NULL, whatever the flags are.
  pub vma_add_past_end :
      (xs : List Ptr) (y : Ptr)
      → IsMm s mm (xs ++ y ∷ [])
      → vma ≢ null
      → AllBelow s (s.st_addr vma) xs
      → 0 < s.st_addr vma
      → s.st_addr vma ≤ s.ed_addr y
      → s.ed_addr y < s.ed_addr vma
      → length (xs ++ y ∷ []) < suc f
      → vma_add kfree (suc f) mm vma (s, k) ≡ null_read
  unfolding vma_add
  vma_add_past_end xs y is ne below start meets behind enough =
      let ne_y : y ≢ null = λ z. ground (arith, z, is.areas, has-append null xs (y ∷ [])) in
      let wide =
        below_more s vma (s.st_addr vma) (s.ed_addr vma) xs (omega (arith, meets, behind)) below in
      let next =
        find_vma-first s (s.ed_addr vma) (suc f) mm (xs ++ y ∷ [])
          (omega (arith, start, meets, behind)) is enough
        ∙ ap some (
            first_area-none s (s.ed_addr vma) (xs ++ y ∷ [])
              (AllBelow-append s (s.ed_addr vma) xs y wide behind)) in
      let prev =
        find_vma-first s (s.st_addr vma) (suc f) mm (xs ++ y ∷ []) start is enough
        ∙ ap some (
            first_area-append s vma (s.st_addr vma) xs (y ∷ []) below
            ∙ first_area-above s vma (s.st_addr vma) y [] meets) in
      rw (vma_add, ne→== mm null is.non_null, ne→== vma null ne, next, prev) (past_run y ne_y)

  -- The list with the new area in the place of another.
  replaced_at :
      (xs : List Ptr) (y : Ptr) (ys : List Ptr)
      → IsList s.links mm (map list_tag (xs ++ y ∷ ys))
      → vma ≢ null
      → has (list_tag vma) ((mm ∷ map list_tag (xs ++ y ∷ ys)) ++ tail mm ∷ []) ≡ false
      → (h : Heap) × (list_replace (list_tag y) (list_tag vma) s.links ≡ some (list_tag vma, h))
        × IsList h mm (map list_tag (xs ++ vma ∷ ys))
  replaced_at xs y ys listed ne out =
      let ts = map list_tag xs in
      let us = init_of mm ts in
      let p = last_of mm ts in
      let shape = tag_split mm xs y ys in
      let (run, ring) =
        replace-IsRing s.links mm us p (list_tag y) (map list_tag ys) (list_tag vma)
          (rw shape at listed) (ground arith)
          (subst (λ t. has (list_tag vma) (t ++ tail mm ∷ []) ≡ false) shape out) in
      (replaced s.links (list_tag y) (list_tag vma), run, rw (sym (tag_split mm xs vma ys)) at ring)

  -- The areas once `vma` has taken the place of `y`.
  abbrev grown : Ptr → Heap → Vmas
  grown y h = record s {
    links = h;
    st_addr = update s.st_addr vma (min (s.st_addr vma) (s.st_addr y));
    ed_addr = update s.ed_addr vma (max (s.ed_addr vma) (s.ed_addr y));
    mm = update (update s.mm vma (s.mm y)) vma mm;
  }

  merge-run :
      (y : Ptr) (h : Heap)
      → list_replace (list_tag y) (list_tag vma) s.links ≡ some (list_tag vma, h)
      → s.mm vma ≡ null
      → s.mm y ≢ null
      → merged kfree mm vma (merge_vma kfree vma y (s, k)) ≡ returns (pos 0, (grown y h, kfree y k))
  unfolding merge_vma take_place merged done
  merge-run y h run alone owned =
      rw (merge_vma, alone, take_place, ne→== (s.mm y) null owned, run, merged, done) refl

  meets_run :
      (y : Ptr)
      → s.flag vma ≡ s.flag y
      → s.st_addr vma ≤ s.ed_addr y
      → s.st_addr y ≤ s.ed_addr vma
      → vma_merge_check s vma y ≡ pos 0
  unfolding vma_merge_check
  meets_run y flags le le' = ground (arith, flags, le, le')

  same_run :
      (y : Ptr)
      → y ≢ null
      → vma ≢ null
      → vma_merge_check s vma y ≡ pos 0
      → add_with kfree (suc f) mm vma y y (s, k)
        ≡ merged kfree mm vma (merge_vma kfree vma y (s, k))
  unfolding add_with retry
  same_run y ne ne' ok =
      rw (add_with, retry, ne→== y null ne, ne→== vma null ne', ==_refl y, ok) refl

  sorted_frame :
      (y : Ptr) (h : Heap) (lo : ℕ) (vs : List Ptr)
      → has vma vs ≡ false
      → SortedFrom s lo vs
      → SortedFrom (grown y h) lo vs
  sorted_frame y h lo [] out sorted = tt
  sorted_frame y h lo (v ∷ vs) out sorted =
      let ne : v ≢ vma = λ e. ground (arith, out, e) in
      let st = update_ne s.st_addr vma v (min (s.st_addr vma) (s.st_addr y)) ne in
      let ed = update_ne s.ed_addr vma v (max (s.ed_addr vma) (s.ed_addr y)) ne in
      let rest = sorted_frame y h (suc (s.ed_addr v)) vs (ground (arith, out)) sorted.2 in
      rw (st, ed) (sorted.0, sorted.1, rest)

  sorted_grown :
      (y : Ptr) (h : Heap) (lo : ℕ) (xs ys : List Ptr)
      → has vma (xs ++ y ∷ ys) ≡ false
      → SortedFrom s lo (xs ++ y ∷ ys)
      → AllBelow s (s.st_addr vma) xs
      → lo ≤ s.st_addr vma
      → s.ed_addr vma ≤ s.ed_addr y
      → SortedFrom (grown y h) lo (xs ++ vma ∷ ys)
  sorted_grown y h lo [] ys out sorted below le inside =
      let st = update_self s.st_addr vma (min (s.st_addr vma) (s.st_addr y)) in
      let ed = update_self s.ed_addr vma (max (s.ed_addr vma) (s.ed_addr y)) in
      let end : max (s.ed_addr vma) (s.ed_addr y) ≡ s.ed_addr y = omega (arith, inside) in
      let rest = sorted_frame y h (suc (s.ed_addr y)) ys (ground (arith, out)) sorted.2 in
      rw (st, ed, end) (omega (arith, le, sorted.0), omega (arith, sorted.1), rest)
  sorted_grown y h lo (x ∷ xs) ys out sorted below le inside =
      let ne : x ≢ vma = λ e. ground (arith, out, e) in
      let st = update_ne s.st_addr vma x (min (s.st_addr vma) (s.st_addr y)) ne in
      let ed = update_ne s.ed_addr vma x (max (s.ed_addr vma) (s.ed_addr y)) ne in
      let rest =
        sorted_grown y h (suc (s.ed_addr x)) xs ys (ground (arith, out)) sorted.2 below.1
          (omega (arith, below.0)) inside in
      rw (st, ed) (sorted.0, sorted.1, rest)

  -- If an area of an address space has the flags of a new area, which belongs to none, is not empty and
  -- does not start at 0, and the new one starts behind the ends of the areas before it, reaches to its start or further and
  -- does not end behind it, `vma_add`, with one round more than there are areas, returns 0 and frees
  -- that area alone. The areas then are well formed as before, with the new one in its place, which
  -- has grown to both.
  pub vma_add-IsMm_grown :
      (xs : List Ptr) (y : Ptr) (ys : List Ptr)
      → IsMm s mm (xs ++ y ∷ ys)
      → vma ≢ null
      → has (list_tag vma) ((mm ∷ map list_tag (xs ++ y ∷ ys)) ++ tail mm ∷ []) ≡ false
      → has vma (xs ++ y ∷ ys) ≡ false
      → s.mm vma ≡ null
      → s.mm y ≡ mm
      → s.flag vma ≡ s.flag y
      → AllBelow s (s.st_addr vma) xs
      → 0 < s.st_addr vma
      → s.st_addr vma < s.ed_addr vma
      → s.st_addr y ≤ s.ed_addr vma
      → s.ed_addr vma ≤ s.ed_addr y
      → length (xs ++ y ∷ ys) < suc f
      → (s' : Vmas) × (vma_add kfree (suc f) mm vma (s, k) ≡ returns (pos 0, (s', kfree y k)))
        × IsMm s' mm (xs ++ vma ∷ ys)
        × (s'.st_addr vma ≡ min (s.st_addr vma) (s.st_addr y))
        × (s'.ed_addr vma ≡ s.ed_addr y)
        × (s'.mm vma ≡ mm)
  vma_add-IsMm_grown xs y ys is ne out new alone owner flags below start some_size meets inside
        enough =
      let ne_y : y ≢ null = λ z. ground (arith, z, is.areas, has-append null xs (y ∷ ys)) in
      let owned : s.mm y ≢ null = λ z. is.non_null (sym owner ∙ z) in
      let (h, run, listed) = replaced_at xs y ys is.list ne out in
      let ok = meets_run y flags (omega (arith, some_size, inside)) meets in
      let to_end = first_area-above s vma (s.ed_addr vma) y ys inside in
      let to_start =
        first_area-above s vma (s.st_addr vma) y ys (omega (arith, some_size, inside)) in
      let whole = same_run y ne_y ne ok ∙ merge-run y h run alone owned in
      (
        grown y h,
        found s vma kfree f mm k xs (y ∷ ys) _ is ne below start some_size enough
            (rw (to_end, to_start) whole),
        record {
          non_null = is.non_null;
          list = listed;
          areas =
              ground
                (arith, ne, is.areas, has-append null xs (y ∷ ys), has-append null xs (vma ∷ ys));
          sorted = sorted_grown y h 0 xs ys new is.sorted below (omega arith) inside;
        },
        update_self s.st_addr vma (min (s.st_addr vma) (s.st_addr y)),
        update_self s.ed_addr vma (max (s.ed_addr vma) (s.ed_addr y)) ∙ omega (arith, inside),
        update_self (update s.mm vma (s.mm y)) vma mm,
      )
