-- ===== src/Vmm/Add/Apart.antt =====
-- `vma_add` of an area that is apart from all others.
use atlos.Base.{
  ℕ, suc, ◌<◌, ◌≤◌, ◌≡◌, ◌≢◌, refl, false, some, List, [], ◌∷◌, ◌++◌, map, length, has, has-append,
  arith, ◌==◌, ℤ, pos, is_zero, sym, ◌∙◌, ap, Bool-cases, ne→==, ==_refl, inl, inr, update,
  update_self,
}
use mathlib.Core.Path.{subst}
use mathlib.Core.List.{append_assoc, append-nil}
use atlos.Dlist.{Ptr, null, Heap, tail, list_push_back, list_insert_before}
use atlos.Dlist.Chain.{IsList}
use atlos.Dlist.Ends.{push_back-IsList, snoc_eq, init_of, last_of}
use atlos.Dlist.Insert.{inserted}
use atlos.Dlist.Replace.{insert_before-IsRing}
use atlos.Vmm.{Vmas, list_tag, vma_merge_check}
use atlos.Vmm.Fault.{SortedFrom, IsMm, first_area, find_vma-first}
use atlos.Vmm.Add.{Ending, returns, vma_add, add_with, retry, linked, done}

-- All areas end below an address.
abbrev pub AllBelow : Vmas → ℕ → List Ptr → Type 0
AllBelow s addr [] = Unit
AllBelow s addr (v ∷ vs) = (s.ed_addr v < addr) × AllBelow s addr vs

pub map-append : (xs ys : List Ptr) → map list_tag (xs ++ ys) ≡ map list_tag xs ++ map list_tag ys
map-append [] ys = refl
map-append (x ∷ xs) ys = ap (λ t. list_tag x ∷ t) (map-append xs ys)

-- The list of the tags, split in front of an area.
pub tag_split :
    (mm : Ptr) (xs : List Ptr) (y : Ptr) (ys : List Ptr)
    → mm ∷ map list_tag (xs ++ y ∷ ys)
      ≡ init_of mm (map list_tag xs) ++ last_of mm (map list_tag xs) ∷ list_tag y ∷ map list_tag ys
tag_split mm xs y ys =
    let ts = map list_tag xs in
    let rest = list_tag y ∷ map list_tag ys in
    ap (λ t. mm ∷ t) (map-append xs (y ∷ ys))
    ∙ ap (λ t. t ++ rest) (snoc_eq mm ts)
    ∙ append_assoc (init_of mm ts) (last_of mm ts ∷ []) rest

module _ (s : Vmas) (vma : Ptr) where
  sorted_insert :
      (lo : ℕ) (xs ys : List Ptr)
      → SortedFrom s lo (xs ++ ys)
      → AllBelow s (s.st_addr vma) xs
      → lo ≤ s.st_addr vma
      → s.st_addr vma < s.ed_addr vma
      → SortedFrom s (suc (s.ed_addr vma)) ys
      → SortedFrom s lo (xs ++ vma ∷ ys)
  sorted_insert lo [] ys sorted below le some_size above = (le, some_size, above)
  sorted_insert lo (x ∷ xs) ys sorted below le some_size above = (
    sorted.0,
    sorted.1,
    sorted_insert (suc (s.ed_addr x)) xs ys sorted.2 below.1 (omega (arith, below.0)) some_size
        above,
  )

  pub first_area-append :
      (addr : ℕ) (xs ys : List Ptr)
      → AllBelow s addr xs
      → first_area s addr (xs ++ ys) ≡ first_area s addr ys
  first_area-append addr [] ys below = refl
  first_area-append addr (x ∷ xs) ys below =
      ground (arith, below, first_area-append addr xs ys below.1)

  pub below_more : (a b : ℕ) (xs : List Ptr) → a ≤ b → AllBelow s a xs → AllBelow s b xs
  below_more a b [] le below = tt
  below_more a b (x ∷ xs) le below = (omega (arith, le, below.0), below_more a b xs le below.1)

  pub first_area-above :
      (addr : ℕ) (y : Ptr) (ys : List Ptr) → addr ≤ s.ed_addr y → first_area s addr (y ∷ ys) ≡ y
  first_area-above addr y ys le = ground (arith, le)

  not_mergeable :
      (y : Ptr) → s.ed_addr vma < s.st_addr y → is_zero (vma_merge_check s vma y) ≡ false
  unfolding vma_merge_check
  not_mergeable y lt = elim (Bool-cases (s.flag vma == s.flag y)) [
    | inl e ↦ rw (vma_merge_check, e) (ground (arith, lt))
    | inr e ↦ rw (vma_merge_check, e) refl
  ]

  module _ {S : Type 0} (kfree : Ptr → S → S) (f : ℕ) (mm : Ptr) (k : S) where
    abbrev added : Heap → Vmas
    added h = record s { links = h; mm = update s.mm vma mm }

    -- Before the first area `y` behind it.
    add_before :
        (y : Ptr) (h : Heap)
        → y ≢ null
        → vma ≢ null
        → s.ed_addr vma < s.st_addr y
        → list_insert_before mm (list_tag y) (list_tag vma) s.links ≡ some (tt, h)
        → add_with kfree (suc f) mm vma y y (s, k) ≡ returns (pos 0, (added h, k))
    unfolding add_with retry linked done
    add_before y h ne ne' lt run =
        rw
          (
            add_with,
            retry,
            ne→== y null ne,
            ne→== vma null ne',
            ==_refl y,
            not_mergeable y lt,
            run,
            linked,
            done,
          )
          refl

    add_last :
        (h : Heap)
        → list_push_back mm (list_tag vma) s.links ≡ some (tt, h)
        → add_with kfree (suc f) mm vma null null (s, k) ≡ returns (pos 0, (added h, k))
    unfolding add_with linked done
    add_last h run = rw (add_with, run, linked, done) refl

    -- The list with the new area in its place.
    inserted_at :
        (xs : List Ptr) (y : Ptr) (ys : List Ptr)
        → IsList s.links mm (map list_tag (xs ++ y ∷ ys))
        → has (list_tag vma) ((mm ∷ map list_tag (xs ++ y ∷ ys)) ++ tail mm ∷ []) ≡ false
        → (h : Heap) × (list_insert_before mm (list_tag y) (list_tag vma) s.links ≡ some (tt, h))
          × IsList h mm (map list_tag (xs ++ vma ∷ y ∷ ys))
    inserted_at xs y ys listed out =
        let ts = map list_tag xs in
        let us = init_of mm ts in
        let p = last_of mm ts in
        let shape = tag_split mm xs y ys in
        let (run, ring) =
          insert_before-IsRing s.links mm us p (list_tag y) (map list_tag ys) (list_tag vma)
            (rw shape at listed) (ground arith)
            (subst (λ t. has (list_tag vma) (t ++ tail mm ∷ []) ≡ false) shape out) in
        (inserted s.links mm p (list_tag vma), run, rw (sym (tag_split mm xs vma (y ∷ ys))) at ring)

    has-null :
        (xs ys : List Ptr)
        → vma ≢ null
        → has null (xs ++ ys) ≡ false
        → has null (xs ++ vma ∷ ys) ≡ false
    has-null xs ys ne none_null =
        ground (arith, ne, none_null, has-append null xs ys, has-append null xs (vma ∷ ys))

    pub found :
        (xs ys : List Ptr) (r : Ending (ℤ × (Vmas × S)))
        → IsMm s mm (xs ++ ys)
        → vma ≢ null
        → AllBelow s (s.st_addr vma) xs
        → 0 < s.st_addr vma
        → s.st_addr vma < s.ed_addr vma
        → length (xs ++ ys) < suc f
        → add_with kfree
            (suc f)
            mm
            vma
            (first_area s (s.st_addr vma) ys)
            (first_area s (s.ed_addr vma) ys)
            (s, k)
          ≡ r
        → vma_add kfree (suc f) mm vma (s, k) ≡ r
    unfolding vma_add
    found xs ys r is ne below start some_size enough run =
        let next =
          find_vma-first s (s.ed_addr vma) (suc f) mm (xs ++ ys) (omega (arith, start, some_size))
            is enough
          ∙ ap some (
              first_area-append (s.ed_addr vma) xs ys
                (below_more (s.st_addr vma) (s.ed_addr vma) xs (omega (arith, some_size)) below)) in
        let prev =
          find_vma-first s (s.st_addr vma) (suc f) mm (xs ++ ys) start is enough
          ∙ ap some (first_area-append (s.st_addr vma) xs ys below) in
        rw (vma_add, ne→== mm null is.non_null, ne→== vma null ne, next, prev) run

    sorted_same :
        (h : Heap) (lo : ℕ) (vs : List Ptr) → SortedFrom s lo vs → SortedFrom (added h) lo vs
    sorted_same h lo [] sorted = tt
    sorted_same h lo (v ∷ vs) sorted =
        (sorted.0, sorted.1, sorted_same h (suc (s.ed_addr v)) vs sorted.2)

    placed :
        (h : Heap) (xs ys : List Ptr)
        → IsMm s mm (xs ++ ys)
        → vma ≢ null
        → AllBelow s (s.st_addr vma) xs
        → s.st_addr vma < s.ed_addr vma
        → SortedFrom s (suc (s.ed_addr vma)) ys
        → IsList h mm (map list_tag (xs ++ vma ∷ ys))
        → IsMm (added h) mm (xs ++ vma ∷ ys)
    placed h xs ys is ne below some_size above listed = record {
      non_null = is.non_null;
      list = listed;
      areas = has-null xs ys ne is.areas;
      sorted =
          sorted_same h 0 (xs ++ vma ∷ ys)
            (sorted_insert 0 xs ys is.sorted below (omega arith) some_size above);
    }

    -- If an area that is not empty, does not start at 0 and is not in the list lies behind the end of
    -- the first areas of an address space and ends before the others, `vma_add`, with one round more than there are areas, returns
    -- 0 and frees nothing. The areas then are well formed as before, with the new one in its place.
    pub vma_add-IsMm :
        (xs ys : List Ptr)
        → IsMm s mm (xs ++ ys)
        → vma ≢ null
        → has (list_tag vma) ((mm ∷ map list_tag (xs ++ ys)) ++ tail mm ∷ []) ≡ false
        → 0 < s.st_addr vma
        → s.st_addr vma < s.ed_addr vma
        → AllBelow s (s.st_addr vma) xs
        → SortedFrom s (suc (s.ed_addr vma)) ys
        → length (xs ++ ys) < suc f
        → (s' : Vmas) × (vma_add kfree (suc f) mm vma (s, k) ≡ returns (pos 0, (s', k)))
          × IsMm s' mm (xs ++ vma ∷ ys)
          × (s'.mm vma ≡ mm)
    vma_add-IsMm xs [] is ne out start some_size below above enough =
        let whole : xs ++ [] ≡ xs = append-nil xs in
        let listed : IsList s.links mm (map list_tag xs) = rw whole at is.list in
        let apart : has (list_tag vma) ((mm ∷ map list_tag xs) ++ tail mm ∷ []) ≡ false =
          rw whole at out in
        let (h, run, joined) =
          push_back-IsList s.links mm (map list_tag xs) (list_tag vma) listed (ground arith)
            apart in
        (
          added h,
          found xs [] _ is ne below start some_size enough (add_last h run),
          placed h xs [] is ne below some_size above (rw (map-append xs (vma ∷ [])) joined),
          update_self s.mm vma mm,
        )
    vma_add-IsMm xs (y ∷ ys) is ne out start some_size below above enough =
        let (h, run, joined) = inserted_at xs y ys is.list out in
        let ne_y : y ≢ null = λ z. ground (arith, z, is.areas, has-append null xs (y ∷ ys)) in
        let to_end = first_area-above (s.ed_addr vma) y ys (omega (arith, above.0, above.1)) in
        let to_start =
          first_area-above (s.st_addr vma) y ys (omega (arith, above.0, above.1, some_size)) in
        (
          added h,
          found xs (y ∷ ys) _ is ne below start some_size enough
              (rw (to_end, to_start) (add_before y h ne_y ne (omega (arith, above.0)) run)),
          placed h xs (y ∷ ys) is ne below some_size above joined,
          update_self s.mm vma mm,
        )
