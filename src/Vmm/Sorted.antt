-- ===== src/Vmm/Sorted.antt =====
-- `check_vma_sorted` decides whether the areas are in order.
use atlos.Base.{
  ℕ, zero, suc, ◌+◌, ◌-◌, ◌<◌, ◌≡◌, ◌≢◌, ◌↔◌, refl, false, ◌||◌, some, List, [], ◌∷◌, ◌++◌, map,
  length, Distinct, has-append, arith, if◌then◌else◌, ◌==◌, leb, ℤ, pos, negsuc,
}
use atlos.Dlist.{Ptr, tail}
use atlos.Dlist.Chain.{IsList, Seg}
use atlos.Dlist.Ends.{front_back}
use atlos.Vmm.{Vmas, list_tag, check_vma_sorted, sorted_loop}

-- Each area and the next are not empty, and the next starts behind the end of the one before.
abbrev pub InOrder : Vmas → Ptr → List Ptr → Type 0
InOrder s v [] = Unit
InOrder s v (w ∷ ws) =
    (s.st_addr v < s.ed_addr v)
    × (s.st_addr w < s.ed_addr w)
    × (s.ed_addr v < s.st_addr w)
    × InOrder s w ws

module _ (s : Vmas) where
  -- What the loop returns from the area `v` on.
  verdict : Ptr → List Ptr → ℤ
  verdict v [] = pos 0
  verdict v (w ∷ ws) =
      let rest = verdict w ws in
      if leb (s.ed_addr v) (s.st_addr v) || leb (s.ed_addr w) (s.st_addr w)
      then negsuc 0
      else if leb (s.st_addr w) (s.ed_addr v)
      then negsuc 1
      else rest

  verdict-InOrder : (v : Ptr) (ws : List Ptr) → (verdict v ws ≡ pos 0) ↔ InOrder s v ws
  unfolding verdict
  verdict-InOrder v [] = (λ e. tt, λ o. refl)
  verdict-InOrder v (w ∷ ws) =
      let ih = verdict-InOrder w ws in
      (
        λ e. (ground arith, ground arith, ground arith, ih.0 (ground arith)),
        λ o. let rest = ih.1 o.3 in ground (arith, rest),
      )

  loop-verdict :
      (mm : Ptr) (f : ℕ) (v : Ptr) (ws : List Ptr)
      → Seg s.links (s.links.next (list_tag v)) (map list_tag ws) (tail mm)
      → Distinct (map list_tag ws ++ tail mm ∷ [])
      → length ws < f
      → sorted_loop f s mm (list_tag v) (s.links.next (list_tag v)) ≡ some (verdict v ws)
  unfolding sorted_loop verdict
  loop-verdict mm zero v ws seg d enough = absurd (omega arith)
  loop-verdict mm (suc f) v [] seg d enough = ground (arith, seg)
  loop-verdict mm (suc f) v (w ∷ ws) seg d enough =
      let ih = loop-verdict mm f w ws seg.2 d.1 (omega arith) in
      let inside : w + 16 ≢ mm + 8 =
        λ e. ground (arith, has-append (w + 16) (map list_tag ws) (tail mm ∷ [])) in
      let v' : v + 16 - 16 ≡ v = omega arith in
      let w' : w + 16 - 16 ≡ w = omega arith in rw (seg.0, v', w') (ground (arith, ih, inside))

  -- On a list of at least one area, and given a round more than there are areas, `check_vma_sorted`
  -- ends, and returns 0 exactly if of each two neighbours neither is empty and the second starts
  -- behind the end of the first.
  pub check_vma_sorted-InOrder :
      (fuel : ℕ) (mm v : Ptr) (vs : List Ptr)
      → IsList s.links mm (map list_tag (v ∷ vs))
      → length vs < fuel
      → (r : ℤ) × (check_vma_sorted fuel mm s ≡ some r) × ((r ≡ pos 0) ↔ InOrder s v vs)
  unfolding check_vma_sorted
  check_vma_sorted-InOrder fuel mm v vs is enough =
      let front = (front_back s.links mm (map list_tag (v ∷ vs)) is).0 in
      let there : (v + 16 == 0) ≡ false = ground arith in
      (
        verdict v vs,
        rw (check_vma_sorted, front, there)
            (loop-verdict mm fuel v vs is.chain.2.2 is.distinct.1.1 enough),
        verdict-InOrder v vs,
      )
