-- ===== src/Vmm/Space/Free.antt =====
-- What `mm_destroy` frees.
use atlos.Base.{
  ℕ, zero, suc, ◌<◌, ◌≡◌, refl, ◌≢◌, false, true, none, some, List, [], ◌∷◌, arith, length, ◌==◌,
  update, ne→==, sym, ◌∙◌, has-append,
}
use atlos.Dlist.{Ptr, null, Heap, tail, list_erase}
use atlos.Dlist.Chain.{IsList}
use atlos.Dlist.Frame.{cut}
use atlos.Dlist.Erase.{erased, erase_null, erase-IsRing}
use atlos.Dlist.Ends.{front_back}
use atlos.Vmm.{le2vma}
use atlos.Vmm.Space.{Space, destroy_loop, mm_destroy}

module _ {S : Type 0} (kfree : Ptr → S → S) where
  abbrev pub freed : List Ptr → S → S
  freed [] s = s
  freed (x ∷ xs) s = freed xs (kfree (le2vma x) s)

  -- One round, for an element `x`.
  destroy-step :
      (f : ℕ) (l x next : Ptr) (h g : Heap) (s : S)
      → x ≢ tail l
      → x ≢ null
      → list_erase l x h ≡ some (x, g)
      → g.next x ≡ next
      → destroy_loop kfree (suc f) l x h s ≡ destroy_loop kfree f l next g (kfree (le2vma x) s)
  unfolding destroy_loop
  destroy-step f l x next h g s ne nn erase link =
      let t = ne→== x (tail l) ne in let n = ne→== x null nn in rw (t, erase, n, link) refl

  destroy-end :
      (f : ℕ) (l elem : Ptr) (h : Heap) (s : S)
      → elem ≡ tail l
      → destroy_loop kfree (suc f) l elem h s ≡ some (h, s)
  unfolding destroy_loop
  destroy-end f l elem h s e = let t : (elem == tail l) ≡ true = ground arith in rw t refl

  destroy-all :
      (f : ℕ) (l : Ptr) (xs : List Ptr) (h : Heap) (elem : Ptr) (s : S)
      → IsList h l xs
      → h.next l ≡ elem
      → length xs < f
      → (g : Heap) × (destroy_loop kfree f l elem h s ≡ some (g, freed xs s)) × IsList g l []
  unfolding update
  destroy-all zero l xs h elem s is first fuel = absurd (omega arith)
  destroy-all (suc f) l [] h elem s is first fuel =
      (h, destroy-end f l elem h s (ground (arith, is.chain)), is)
  destroy-all (suc f) l (x ∷ xs) h elem s is first fuel =
      let g = erased h l x in
      let c = cut h l (l ∷ []) x xs is in
      let (run, ring) = erase-IsRing h l [] l x xs is in
      let back : h.prev x ≡ l = ground (arith, is.chain.1, is.chain.2.0) in
      let ne : x ≢ tail l = λ q. ground (arith, is.distinct, has-append x xs (tail l ∷ [])) in
      let link : g.next x ≡ g.next l = ground (arith, back, is.distinct) in
      let here : elem ≡ x = sym first ∙ is.chain.2.0 in
      let (g', rest, empty) =
        destroy-all f l xs g (g.next l) (kfree (le2vma x) s) ring refl (omega arith) in
      (g', rw here (destroy-step f l x (g.next l) h g s ne c.e_ne_null run link ∙ rest), empty)

  destroy_null : (f : ℕ) (l : Ptr) (h : Heap) (s : S) → destroy_loop kfree f l null h s ≡ none
  unfolding destroy_loop
  destroy_null zero l h s = refl
  destroy_null (suc f) l h s =
      let t : (null == tail l) ≡ false = ground arith in rw (t, erase_null h l) refl

  -- `mm_destroy` of an address space with at least one area and no users, given a round more than
  -- there are areas, ends, frees every area once, in order, and then the space itself.
  pub mm_destroy-freed :
      (f : ℕ) (mm x : Ptr) (xs : List Ptr) (sp : Space) (s : S)
      → IsList sp.links mm (x ∷ xs)
      → sp.ref_count mm ≡ 0
      → suc (length xs) < f
      → (g : Heap) × (mm_destroy kfree f mm sp s ≡ some (g, kfree mm (freed (x ∷ xs) s)))
        × IsList g mm []
  unfolding mm_destroy
  mm_destroy-freed f mm x xs sp s is unused fuel =
      let front = (front_back sp.links mm (x ∷ xs) is).0 in
      let (g, run, empty) = destroy-all f mm (x ∷ xs) sp.links x s is is.chain.2.0 fuel in
      let some_mm = ne→== mm null (cut sp.links mm [] mm (x ∷ xs) is).ne_null in
      (g, rw (some_mm, unused, front, run) refl, empty)

  -- Of an address space without areas it reads through NULL, whatever the rounds: `list_front` of an
  -- empty list is NULL, and not the tail element.
  pub mm_destroy_empty :
      (f : ℕ) (mm : Ptr) (sp : Space) (s : S)
      → IsList sp.links mm []
      → sp.ref_count mm ≡ 0
      → mm_destroy kfree f mm sp s ≡ none
  unfolding mm_destroy
  mm_destroy_empty f mm sp s is unused =
      let front = (front_back sp.links mm [] is).0 in
      let some_mm = ne→== mm null (cut sp.links mm [] mm [] is).ne_null in
      let fault = destroy_null f mm sp.links s in rw (some_mm, unused, front, fault) refl
