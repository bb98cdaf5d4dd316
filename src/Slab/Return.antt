-- ===== src/Slab/Return.antt =====
-- Objects returned to their slab, with the lists that the slab goes through.
use atlos.Base.{
  ℕ, suc, ◌+◌, ◌-◌, ◌*◌, ◌/◌, ◌%◌, ◌^◌, ◌<◌, ◌≤◌, ◌≡◌, refl, ◌≢◌, true, false, ◌&&◌, not, none,
  some, List, [], ◌∷◌, ◌++◌, arith, length, has, ◌==◌, if◌then◌else◌, ne→==, inl, inr, ℕ-eq_cases,
  Bool-cases, length-append, ◌∙◌,
}
use native.Mathlib.Nat.{one-le-pow, mul-le-mul_right, mul-div_cancel}
use atlos.Dlist.{Ptr, Heap, list_erase, list_push_back}
use atlos.Dlist.Chain.{IsList}
use atlos.Dlist.Move.{move-Three, swap_first, swap_last}
use atlos.Slab.{
  Slabs, obj_removed, tag_of, full, empty, partial, give_obj, return_obj_to_slab,
  try_free_empty_slabs, num_release, max_empty_slabs, release,
}
use atlos.Slab.Free.{IsSlab, FreeFrom, give-IsSlab}
use atlos.Slab.Lists.{IsCache, links-IsSlab, move_tag-run, address}

offset_eq : (p buff : ℕ) → p + buff < 2 ^ 32 → ((p + buff) % 2 ^ 32 + 2 ^ 32 - buff) % 2 ^ 32 ≡ p
offset_eq p buff lt = omega (arith)

-- The objects of the slab end inside the address space.
abbrev pub InSpace : Slabs → Ptr → Type 0
InSpace s slab = s.buff slab + s.total_objs slab * 2 ^ s.obj_order slab ≤ 2 ^ 32

below_space :
    (x total n buff : ℕ) → x < total → 0 < n → buff + total * n ≤ 2 ^ 32 → x * n + buff < 2 ^ 32
below_space x total n buff lt pos le = omega (arith, mul-le-mul_right n lt)

offset-address :
    (s : Slabs) (slab : Ptr) (x : ℕ)
    → InSpace s slab
    → x < s.total_objs slab
    → (address s slab x + 2 ^ 32 - s.buff slab) % 2 ^ 32 / 2 ^ s.obj_order slab ≡ x
offset-address s slab x space lt =
    let n = 2 ^ s.obj_order slab in
    let pos : 0 < n = omega (arith, one-le-pow (s.obj_order slab) 2 (omega arith)) in
    rw
      (offset_eq (x * n) (s.buff slab)
        (below_space x (s.total_objs slab) n (s.buff slab) lt pos space))
      (mul-div_cancel x pos)

-- With at most four empty slabs none is released.
release-none :
    (s : Slabs) (off cache : ℕ) (es : List Ptr)
    → IsList s.links (empty cache) es
    → length es ≤ max_empty_slabs
    → try_free_empty_slabs off cache 1 s ≡ some (tt, s)
unfolding try_free_empty_slabs num_release release
release-none s off cache es is few =
    let none_over : s.links.len (empty cache) - max_empty_slabs ≡ 0 =
      omega (arith, is.count, is.small) in
    rw (try_free_empty_slabs, none_over) refl

-- The object, which is not free, and where it stands.
pub record Returns (s : Slabs) (cache slab : Ptr) (x : ℕ) (xs : List ℕ) : Type 0 where
  pub slab_ok : IsSlab s slab xs
  pub object : x < s.total_objs slab
  pub is_taken : has x xs ≡ false
  pub space : InSpace s slab
  pub obj_ne : address s slab x ≢ 0
  pub slab_ne : slab ≢ 0
  pub cache_ne : cache ≢ 0

module _ (s : Slabs) (off cache slab : Ptr) (x : ℕ) (xs : List ℕ) where
  abbrev given : Slabs
  given = give_obj slab x s

  given-IsSlab : Returns s cache slab x xs → IsSlab given slab (x ∷ xs)
  given-IsSlab r = give-IsSlab s slab x xs r.slab_ok r.object r.is_taken

  return-stays :
      Returns s cache slab x xs
      → suc (length xs) ≢ s.total_objs slab
      → length xs ≢ 0
      → return_obj_to_slab off (address s slab x) slab cache s
        ≡ try_free_empty_slabs off cache 1 given
  unfolding return_obj_to_slab
  return-stays r not_all not_first =
      rw
        (
          offset-address s slab x r.space r.object,
          ne→== (address s slab x) 0 r.obj_ne,
          ne→== slab 0 r.slab_ne,
          ne→== cache 0 r.cache_ne,
          r.slab_ok.others x r.object r.is_taken,
          (given-IsSlab r).count,
          ne→== (suc (length xs)) (s.total_objs slab) not_all,
          ne→== (suc (length xs)) 1 (λ q. not_first (omega (arith, q))),
        )
        refl

  return-first :
      (h₁ h₂ : Heap)
      → Returns s cache slab x xs
      → length xs ≡ 0
      → 1 < s.total_objs slab
      → list_erase (full cache) (tag_of slab) s.links ≡ some (tag_of slab, h₁)
      → list_push_back (partial cache) (tag_of slab) h₁ ≡ some (tt, h₂)
      → return_obj_to_slab off (address s slab x) slab cache s
        ≡ try_free_empty_slabs off cache 1 (record given { links = h₂ })
  unfolding return_obj_to_slab
  return-first h₁ h₂ r none_left two erase push =
      let run = move_tag-run given h₁ h₂ (full cache) (partial cache) (tag_of slab) erase push in
      let not_all : (suc (length xs) == s.total_objs slab) ≡ false = ground arith in
      let first : (suc (length xs) == 1) ≡ true = ground arith in
      rw
        (
          offset-address s slab x r.space r.object,
          ne→== (address s slab x) 0 r.obj_ne,
          ne→== slab 0 r.slab_ne,
          ne→== cache 0 r.cache_ne,
          r.slab_ok.others x r.object r.is_taken,
          (given-IsSlab r).count,
          not_all,
          first,
          run,
        )
        refl

  return-all :
      (h₁ h₂ : Heap)
      → Returns s cache slab x xs
      → suc (length xs) ≡ s.total_objs slab
      → 1 < s.total_objs slab
      → list_erase (partial cache) (tag_of slab) s.links ≡ some (tag_of slab, h₁)
      → list_push_back (empty cache) (tag_of slab) h₁ ≡ some (tt, h₂)
      → return_obj_to_slab off (address s slab x) slab cache s
        ≡ try_free_empty_slabs off cache 1 (record given { links = h₂ })
  unfolding return_obj_to_slab
  return-all h₁ h₂ r all two erase push =
      let run = move_tag-run given h₁ h₂ (partial cache) (empty cache) (tag_of slab) erase push in
      let is_all : (suc (length xs) == s.total_objs slab) ≡ true = ground arith in
      let not_first : (suc (length xs) == 1) ≡ false = ground arith in
      rw
        (
          offset-address s slab x r.space r.object,
          ne→== (address s slab x) 0 r.obj_ne,
          ne→== slab 0 r.slab_ne,
          ne→== cache 0 r.cache_ne,
          r.slab_ok.others x r.object r.is_taken,
          (given-IsSlab r).count,
          is_all,
          run,
          not_first,
        )
        refl

-- An object returned to a full slab of at least two objects becomes its only free one, and the slab
-- goes to the end of the partial slabs. At most four slabs are empty, so that none is released.
pub return_full-IsCache :
    (s : Slabs) (off cache slab : Ptr) (x : ℕ) (ps us vs es : List Ptr)
    → Returns s cache slab x []
    → 1 < s.total_objs slab
    → IsCache s.links cache ps (us ++ tag_of slab ∷ vs) es
    → length es ≤ max_empty_slabs
    → (s' : Slabs) × (return_obj_to_slab off (address s slab x) slab cache s ≡ some (tt, s'))
      × IsSlab s' slab (x ∷ [])
      × IsCache s'.links cache (ps ++ tag_of slab ∷ []) (us ++ vs) es
unfolding give_obj
return_full-IsCache s off cache slab x ps us vs es r two lists few =
    let t = tag_of slab in
    let (h₁, h₂, erase, push, three) =
      move-Three s.links (full cache) us t vs (partial cache) ps (empty cache) es (
        swap_first s.links (partial cache) ps (full cache) (us ++ t ∷ vs) (empty cache) es lists) in
    let s' : Slabs = record (give_obj slab x s) { links = h₂ } in
    (
      s',
      return-first s off cache slab x [] h₁ h₂ r refl two erase push
          ∙ release-none s' off cache es three.third few,
      links-IsSlab (give_obj slab x s) h₂ slab (x ∷ []) (given-IsSlab s off cache slab x [] r),
      swap_first h₂ (full cache) (us ++ vs) (partial cache) (ps ++ t ∷ []) (empty cache) es three,
    )

-- An object returned to a partial slab becomes its first free one. The slab stays where it is, or goes
-- to the end of the empty slabs if all of its objects are then free. Fewer than four slabs are
-- empty before, so that none is released.
pub return-IsCache :
    (s : Slabs) (off cache slab : Ptr) (x : ℕ) (xs : List ℕ) (us vs fs es : List Ptr)
    → Returns s cache slab x xs
    → length xs ≢ 0
    → IsCache s.links cache (us ++ tag_of slab ∷ vs) fs es
    → length es < max_empty_slabs
    → (s' : Slabs) × (return_obj_to_slab off (address s slab x) slab cache s ≡ some (tt, s'))
      × IsSlab s' slab (x ∷ xs)
      × IsCache s'.links cache
          (if suc (length xs) == s.total_objs slab then us ++ vs else us ++ tag_of slab ∷ vs)
          fs
          (if suc (length xs) == s.total_objs slab then es ++ tag_of slab ∷ [] else es)
unfolding give_obj
return-IsCache s off cache slab x xs us vs fs es r some_free lists few =
    let t = tag_of slab in
    let ok = given-IsSlab s off cache slab x xs r in
    elim (ℕ-eq_cases (suc (length xs)) (s.total_objs slab)) [
      | inl all ↦
          let (h₁, h₂, erase, push, three) =
            move-Three s.links (partial cache) us t vs (empty cache) es (full cache) fs (
              swap_last s.links (partial cache) (us ++ t ∷ vs) (full cache) fs (empty cache) es
                lists) in
          let s' : Slabs = record (give_obj slab x s) { links = h₂ } in
          let yes : (suc (length xs) == s.total_objs slab) ≡ true = ground arith in
          let room : length (es ++ t ∷ []) ≤ max_empty_slabs =
            omega (arith, length-append es (t ∷ [])) in
          (
            s',
            return-all s off cache slab x xs h₁ h₂ r all (omega arith) erase push
                ∙ release-none s' off cache (es ++ t ∷ []) three.second room,
            links-IsSlab (give_obj slab x s) h₂ slab (x ∷ xs) ok,
            rw yes (
                swap_last h₂ (partial cache) (us ++ vs) (empty cache) (es ++ t ∷ []) (full cache) fs
                  three),
          )
      | inr ne ↦ (
        give_obj slab x s,
        return-stays s off cache slab x xs r ne some_free
            ∙ release-none (give_obj slab x s) off cache es lists.third (omega arith),
        ok,
        rw (ne→== (suc (length xs)) (s.total_objs slab) ne) lists,
      )
    ]

next-le : (list : ℕ → ℕ) (total free : ℕ) (xs : List ℕ) → FreeFrom list total free xs → free ≤ total
next-le list total free [] chain = omega arith
next-le list total free (x ∷ xs) chain = omega (arith, chain.0, chain.1)

link-le :
    (list : ℕ → ℕ) (total free x : ℕ) (xs : List ℕ)
    → FreeFrom list total free xs
    → has x xs ≡ true
    → list x ≤ total
link-le list total free x [] chain m = ground arith
link-le list total free x (y ∷ ys) chain m = elim (ℕ-eq_cases x y) [
  | inl e ↦ rw e (next-le list total (list y) ys chain.2)
  | inr ne ↦ link-le list total (list y) x ys chain.2 (ground arith)
]

-- An object that is free already is not returned a second time: the assertion fails.
pub return-free_twice :
    (s : Slabs) (off cache slab : Ptr) (x : ℕ) (xs : List ℕ)
    → IsSlab s slab xs
    → InSpace s slab
    → x < s.total_objs slab
    → has x xs ≡ true
    → return_obj_to_slab off (address s slab x) slab cache s ≡ none
unfolding return_obj_to_slab
return-free_twice s off cache slab x xs is space lt free =
    let le = link-le (s.obj_list slab) (s.total_objs slab) (s.free slab) x xs is.chain free in
    let ne : (s.obj_list slab x == obj_removed) ≡ false = ground (arith, is.small) in
    elim (Bool-cases (not (address s slab x == 0) && not (slab == 0) && not (cache == 0))) [
      | inl there ↦ rw (offset-address s slab x space lt, there, ne) refl
      | inr missing ↦ rw missing refl
    ]
