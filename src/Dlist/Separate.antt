-- ===== src/Dlist/Separate.antt =====
-- Lists that share no element: editing one leaves the other as it is.
use atlos.Base.{
  ◌≡◌, ◌≢◌, true, false, some, List, [], ◌∷◌, ◌++◌, arith, has, has-append, sym, update,
}
use mathlib.Core.List.{append_assoc}
use atlos.Dlist.{Ptr, Heap, tail, list_erase}
use atlos.Dlist.Chain.{IsRing, Seg-first}
use atlos.Dlist.Frame.{Spares, frame, cut, has-middle, has-ne}
use atlos.Dlist.Insert.{inserted}
use atlos.Dlist.Erase.{erased, erase-IsRing}

-- No element of the one list, its ends included, is in the other.
abbrev pub Apart : Ptr → List Ptr → Ptr → List Ptr → Type 0
Apart m zs l ys = (a : Ptr) → has a (zs ++ tail m ∷ []) ≡ true → has a (ys ++ tail l ∷ []) ≡ false

Seg-Spares :
    (h g : Heap) (m : Ptr) (zs : List Ptr)
    → IsRing h m zs
    → Spares h g m zs (tail m)
    → g.len m ≡ h.len m
    → IsRing g m zs
Seg-Spares h g m zs ring same count = record {
  chain = frame h g zs m (tail m) ring.distinct ring.chain same;
  distinct = ring.distinct;
  non_null = ring.non_null;
  count = rw count ring.count;
  small = rw count ring.small;
}

module _ (h : Heap) (l : Ptr) (m : Ptr) (zs : List Ptr) where
  Apart-ne :
      (ys : List Ptr) (a b : Ptr)
      → Apart m zs l ys
      → has a (zs ++ tail m ∷ []) ≡ true
      → has b (ys ++ tail l ∷ []) ≡ true
      → a ≢ b
  Apart-ne ys a b apart i j q = has-ne b a (ys ++ tail l ∷ []) j (apart a i) (sym q)

  heads_ne : (ys : List Ptr) → IsRing h l ys → IsRing h m zs → Apart m zs l ys → m ≢ l
  heads_ne ys ring other apart =
      Apart-ne ys m l apart (Seg-first h zs m (tail m) other.chain)
        (Seg-first h ys l (tail l) ring.chain)

  -- An insertion into the list `l` keeps every list that shares no element with it and does not
  -- hold the new element.
  pub insert-Apart :
      (us : List Ptr) (e : Ptr) (vs : List Ptr) (n : Ptr)
      → IsRing h l (us ++ e ∷ vs)
      → IsRing h m zs
      → Apart m zs l (us ++ e ∷ vs)
      → has n (zs ++ tail m ∷ []) ≡ false
      → IsRing (inserted h l e n) m zs
  unfolding update
  insert-Apart us e vs n ring other apart out =
      let ys = us ++ e ∷ vs in
      let c = cut h l us e vs ring in
      let assoc = append_assoc us (e ∷ vs) (tail l ∷ []) in
      let e_in : has e (ys ++ tail l ∷ []) ≡ true =
        rw assoc (has-middle e us (vs ++ tail l ∷ [])) in
      let b_in : has (h.next e) (ys ++ tail l ∷ []) ≡ true =
        rw assoc
          (ground (arith, c.next_after, has-append (h.next e) us (e ∷ (vs ++ tail l ∷ [])))) in
      Seg-Spares h (inserted h l e n) m zs other
        (record {
          nexts = λ a i.
              let i' : has a (zs ++ tail m ∷ []) ≡ true =
                ground (arith, has-append a zs (tail m ∷ [])) in
              ground (arith, Apart-ne ys a e apart i' e_in);
          prevs = λ a i ne. ground (arith, Apart-ne ys a (h.next e) apart i b_in);
        })
        (ground (arith, heads_ne ys ring other apart))

  -- `list_erase` of an element of a well-formed list, other than the head element, returns it and
  -- leaves every well-formed list that shares no element with that list as it was.
  pub erase-Apart :
      (us : List Ptr) (p e : Ptr) (vs : List Ptr)
      → IsRing h l (us ++ p ∷ e ∷ vs)
      → IsRing h m zs
      → Apart m zs l (us ++ p ∷ e ∷ vs)
      → (list_erase l e h ≡ some (e, erased h l e)) × IsRing (erased h l e) m zs
  unfolding update
  erase-Apart us p e vs ring other apart =
      let ys = us ++ p ∷ e ∷ vs in
      let ws = vs ++ tail l ∷ [] in
      let c = cut h l us p (e ∷ vs) ring in
      let assoc = append_assoc us (p ∷ e ∷ vs) (tail l ∷ []) in
      let p_in : has p (ys ++ tail l ∷ []) ≡ true = rw assoc (has-middle p us (e ∷ ws)) in
      let b = Seg-first h vs (h.next e) (tail l) c.back.2 in
      let b_in : has (h.next e) (ys ++ tail l ∷ []) ≡ true =
        rw assoc (ground (arith, has-append (h.next e) us (p ∷ e ∷ ws))) in
      let back : h.prev e ≡ p = ground (arith, c.back, c.linked) in
      let kept =
        Seg-Spares h (erased h l e) m zs other
          (record {
            nexts = λ a i.
                let i' : has a (zs ++ tail m ∷ []) ≡ true =
                  ground (arith, has-append a zs (tail m ∷ [])) in
                ground (arith, Apart-ne ys a p apart i' p_in);
            prevs = λ a i ne. ground (arith, Apart-ne ys a (h.next e) apart i b_in);
          })
          (ground (arith, heads_ne ys ring other apart)) in
      ((erase-IsRing h l us p e vs ring).0, kept)
