-- ===== src/Dlist/Erase.antt =====
-- `list_erase` at any place of a well-formed list.
use atlos.Base.{
  ◌+◌, ◌-◌, ◌%◌, ◌^◌, ◌≡◌, refl, ◌≢◌, true, false, some, List, [], ◌∷◌, ◌++◌, arith, has, Distinct,
  has-append, sym, update, update_self, update_ne, length-append,
}
use mathlib.Core.List.{append_assoc}
use atlos.Dlist.{Ptr, null, Heap, tail, list_erase}
use atlos.Dlist.Chain.{Seg, IsRing, Seg-join, Seg-first}
use atlos.Dlist.Frame.{frame, Cut, cut, has-ne}

-- The heap after `list_erase`.
abbrev pub erased : Heap → Ptr → Ptr → Heap
erased h l e = record {
  next = update h.next (h.prev e) (h.next e);
  prev = update h.prev (h.next e) (h.prev e);
  len = update h.len l ((h.len l + 2 ^ 32 - 1) % 2 ^ 32);
}

-- NULL is not erased.
pub erase_null : (h : Heap) (l : Ptr) → list_erase l null h ≡ some (null, h)
unfolding list_erase
erase_null h l = ground arith

erase-run :
    (h : Heap) (l e : Ptr)
    → l ≢ null
    → e ≢ null
    → e ≢ l
    → e ≢ tail l
    → h.prev e ≢ null
    → h.next e ≢ null
    → h.prev e ≢ e
    → list_erase l e h ≡ some (e, erased h l e)
unfolding list_erase
erase-run h l e hl he el et hp hn pe =
    ground (arith, update_ne h.next (h.prev e) e (h.next e) (λ q. pe (sym q)))

Distinct-without :
    (p e : Ptr) (us ws : List Ptr) → Distinct (us ++ p ∷ e ∷ ws) → Distinct (us ++ p ∷ ws)
Distinct-without p e [] ws d = (ground arith, d.1.1)
Distinct-without p e (x ∷ us) ws d = (
  ground (arith, has-append x us (p ∷ e ∷ ws), has-append x us (p ∷ ws)),
  Distinct-without p e us ws d.1,
)

module _ (h : Heap) (l : Ptr) (us : List Ptr) (p e : Ptr) (vs : List Ptr) where
  back_link : Cut h l us p (e ∷ vs) → h.prev e ≡ p
  back_link c = rw c.back.0 at c.linked

  erase-front : Cut h l us p (e ∷ vs) → Seg (erased h l e) l us p
  unfolding update
  erase-front c =
      let b = Seg-first h vs (h.next e) (tail l) c.back.2 in
      frame h (erased h l e) us l p c.before c.front (record {
        nexts = λ a m. ground (arith, c.e_not_before a m, back_link c);
        prevs = λ a m ne. ground (arith, c.sides a m, has-append a us (p ∷ []));
      })

  erase-back : Cut h l us p (e ∷ vs) → Seg (erased h l e) (h.next e) vs (tail l)
  unfolding update
  erase-back c = frame h (erased h l e) vs (h.next e) (tail l) c.after.1.1 c.back.2 (record {
    nexts = λ a m. ground (arith, c.after.0, has-append a vs (tail l ∷ []), back_link c);
    prevs = λ a m ne. ground arith;
  })

  erase-chain : Cut h l us p (e ∷ vs) → Seg (erased h l e) l (us ++ p ∷ vs) (tail l)
  unfolding update
  erase-chain c =
      let b = Seg-first h vs (h.next e) (tail l) c.back.2 in
      let to_b : update h.next (h.prev e) (h.next e) p ≡ h.next e = ground (arith, back_link c) in
      Seg-join (erased h l e) us (p ∷ vs) l (tail l) p (erase-front c)
        (refl, rw to_b (ground (arith, back_link c)), rw to_b (erase-back c))

  -- In a well-formed list, `list_erase` of an element other than the head element unlinks exactly
  -- that element, keeps the list well formed, counts it down and returns the element.
  pub erase-IsRing :
      IsRing h l (us ++ p ∷ e ∷ vs)
      → (list_erase l e h ≡ some (e, erased h l e)) × IsRing (erased h l e) l (us ++ p ∷ vs)
  erase-IsRing ring =
      let ws = vs ++ tail l ∷ [] in
      let c = cut h l us p (e ∷ vs) ring in
      let back = back_link c in
      let nn : has null (us ++ p ∷ e ∷ ws) ≡ false =
        rw (append_assoc us (p ∷ e ∷ vs) (tail l ∷ [])) at ring.non_null in
      let first : has l (us ++ p ∷ []) ≡ true = Seg-first h us l p c.front in
      let en : e ≢ null =
        has-ne e null (us ++ p ∷ e ∷ ws) (ground (arith, has-append e us (p ∷ e ∷ ws))) nn in
      let b = Seg-first h vs (h.next e) (tail l) c.back.2 in
      let bn : h.next e ≢ null =
        has-ne (h.next e) null ws b (ground (arith, has-append null us (p ∷ e ∷ ws))) in
      let el : e ≢ l = λ q. ground (arith, c.sides l first) in
      let et : e ≢ tail l = λ q. ground (arith, c.after, has-append e vs (tail l ∷ [])) in
      let pe : h.prev e ≢ e = λ q. ground (arith, c.after) in
      let pn : h.prev e ≢ null = λ q. ground (arith, c.e_ne_null) in
      (
        erase-run h l e c.ne_null en el et pn bn pe,
        record {
          chain = erase-chain c;
          distinct = rw (append_assoc us (p ∷ vs) (tail l ∷ [])) (Distinct-without p e us ws c.all);
          non_null =
              rw (append_assoc us (p ∷ vs) (tail l ∷ []))
                (ground (arith, has-append null us (p ∷ ws), has-append null us (p ∷ e ∷ ws)));
          count = rw update_self (
              omega (
                arith,
                ring.count,
                ring.small,
                length-append us (p ∷ vs),
                length-append us (p ∷ e ∷ vs),
              ));
          small = rw update_self (omega arith);
        },
      )
