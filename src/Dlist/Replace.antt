-- ===== src/Dlist/Replace.antt =====
-- `list_replace` puts one element into the place of another; `list_insert_before`.
use atlos.Base.{
  ◌≡◌, refl, ◌≢◌, false, some, List, [], ◌∷◌, ◌++◌, arith, has, Distinct, has-append, update,
  length-append,
}
use mathlib.Core.List.{append_assoc}
use atlos.Dlist.{Ptr, null, Heap, tail, list_replace, list_insert_before}
use atlos.Dlist.Chain.{Seg, IsRing, Seg-join, Seg-first}
use atlos.Dlist.Frame.{frame, Cut, cut, has-ne}
use atlos.Dlist.Insert.{inserted, insert-IsRing}

-- The heap after `list_replace`.
abbrev pub replaced : Heap → Ptr → Ptr → Heap
replaced h e n = record h {
  next = update (update h.next n (h.next e)) (h.prev e) n;
  prev = update (update h.prev n (h.prev e)) (h.next e) n;
}

replace-run :
    (h : Heap) (e n : Ptr)
    → e ≢ null
    → n ≢ null
    → h.next e ≢ null
    → h.prev e ≢ null
    → e ≢ n
    → e ≢ h.next e
    → list_replace e n h ≡ some (n, replaced h e n)
unfolding list_replace update
replace-run h e n he hn hb hp ne eb = ground arith

module _ (h : Heap) (l : Ptr) (us : List Ptr) (p e : Ptr) (vs : List Ptr) (n : Ptr) where
  replace-front :
      Cut h l us p (e ∷ vs)
      → has n (us ++ p ∷ e ∷ (vs ++ tail l ∷ [])) ≡ false
      → Seg (replaced h e n) l us p
  unfolding update
  replace-front c out =
      let ws = vs ++ tail l ∷ [] in
      let b = Seg-first h vs (h.next e) (tail l) c.back.2 in
      frame h (replaced h e n) us l p c.before c.front (record {
        nexts = λ a m.
            ground (arith, c.e_not_before a m, c.linked, c.back, has-append n us (p ∷ e ∷ ws));
        prevs = λ a m ne.
            ground (arith, c.sides a m, has-append a us (p ∷ []), has-append n us (p ∷ e ∷ ws));
      })

  replace-back :
      Cut h l us p (e ∷ vs)
      → has n (us ++ p ∷ e ∷ (vs ++ tail l ∷ [])) ≡ false
      → Seg (replaced h e n) (h.next e) vs (tail l)
  unfolding update
  replace-back c out =
      let ws = vs ++ tail l ∷ [] in
      frame h (replaced h e n) vs (h.next e) (tail l) c.after.1.1 c.back.2 (record {
        nexts = λ a m. ground (
          arith,
          c.after.0,
          c.linked,
          c.back,
          has-append a vs (tail l ∷ []),
          has-append n us (p ∷ e ∷ ws),
        );
        prevs = λ a m ne. ground (arith, has-append n us (p ∷ e ∷ ws));
      })

  replace-chain :
      Cut h l us p (e ∷ vs)
      → has n (us ++ p ∷ e ∷ (vs ++ tail l ∷ [])) ≡ false
      → Seg (replaced h e n) l (us ++ p ∷ n ∷ vs) (tail l)
  unfolding update
  replace-chain c out =
      let ws = vs ++ tail l ∷ [] in
      let b = Seg-first h vs (h.next e) (tail l) c.back.2 in
      let g = replaced h e n in
      let to_n : g.next p ≡ n = ground (arith, c.linked, c.back) in
      let to_b : g.next n ≡ h.next e =
        ground (arith, c.linked, c.back, has-append n us (p ∷ e ∷ ws)) in
      let n_to_p : g.prev n ≡ p = ground (arith, c.linked, c.back, has-append n us (p ∷ e ∷ ws)) in
      let b_to_n : g.prev (h.next e) ≡ n = ground arith in
      Seg-join g us (p ∷ n ∷ vs) l (tail l) p (replace-front c out)
        (refl, rw to_n n_to_p, (to_n, rw to_b b_to_n, rw to_b (replace-back c out)))

  Distinct-swap :
      (xs ws : List Ptr)
      → Distinct (xs ++ p ∷ e ∷ ws)
      → has n (xs ++ p ∷ e ∷ ws) ≡ false
      → Distinct (xs ++ p ∷ n ∷ ws)
  Distinct-swap [] ws d out = (ground (arith, d), (ground arith, d.1.1))
  Distinct-swap (x ∷ xs) ws d out = (
    ground (arith, has-append x xs (p ∷ e ∷ ws), has-append x xs (p ∷ n ∷ ws)),
    Distinct-swap xs ws d.1 (ground arith),
  )

  -- In a well-formed list, `list_replace` of an element `e` by an element `n` that is not in the
  -- list puts `n` into the place of `e`, keeps the list well formed and returns `n`.
  pub replace-IsRing :
      IsRing h l (us ++ p ∷ e ∷ vs)
      → n ≢ null
      → has n ((us ++ p ∷ e ∷ vs) ++ tail l ∷ []) ≡ false
      → (list_replace e n h ≡ some (n, replaced h e n))
        × IsRing (replaced h e n) l (us ++ p ∷ n ∷ vs)
  replace-IsRing ring hn out =
      let ws = vs ++ tail l ∷ [] in
      let c = cut h l us p (e ∷ vs) ring in
      let assoc = append_assoc us (p ∷ e ∷ vs) (tail l ∷ []) in
      let assoc' = append_assoc us (p ∷ n ∷ vs) (tail l ∷ []) in
      let out' : has n (us ++ p ∷ e ∷ ws) ≡ false = rw assoc at out in
      let nn : has null (us ++ p ∷ e ∷ ws) ≡ false = rw assoc at ring.non_null in
      let out_of = has-append n us (p ∷ e ∷ ws) in
      let en : e ≢ null = λ q. ground (arith, has-append null us (p ∷ e ∷ ws)) in
      let b = Seg-first h vs (h.next e) (tail l) c.back.2 in
      let bn : h.next e ≢ null =
        has-ne (h.next e) null ws b (ground (arith, has-append null us (p ∷ e ∷ ws))) in
      let pn : h.prev e ≢ null = λ q. ground (arith, c.linked, c.back, c.e_ne_null) in
      let e_n : e ≢ n = λ q. ground arith in
      let e_b : e ≢ h.next e = λ q. ground (arith, c.after) in
      (
        replace-run h e n en hn bn pn e_n e_b,
        record {
          chain = replace-chain c out';
          distinct = rw assoc' (Distinct-swap us ws c.all out');
          non_null =
              rw assoc'
                (ground (arith, has-append null us (p ∷ e ∷ ws), has-append null us (p ∷ n ∷ ws)));
          count =
              omega
                (arith, ring.count, length-append us (p ∷ e ∷ vs), length-append us (p ∷ n ∷ vs));
          small = ring.small;
        },
      )

  -- Inserting before `e` is inserting behind the element before it.
  pub insert_before-IsRing :
      IsRing h l (us ++ p ∷ e ∷ vs)
      → n ≢ null
      → has n ((us ++ p ∷ e ∷ vs) ++ tail l ∷ []) ≡ false
      → (list_insert_before l e n h ≡ some (tt, inserted h l p n))
        × IsRing (inserted h l p n) l (us ++ p ∷ n ∷ e ∷ vs)
  unfolding list_insert_before
  insert_before-IsRing ring hn out =
      let c = cut h l us p (e ∷ vs) ring in
      let (run, after) = insert-IsRing h l us p (e ∷ vs) n ring hn out in
      let nn : e ≢ null = λ q. ground (arith, c.next_ne_null, c.back) in
      (ground (arith, c.linked, c.back), after)
