-- ===== src/Dlist/Insert.antt =====
-- `list_insert` at any place of a well-formed list.
use atlos.Base.{
  ◌+◌, ◌%◌, ◌^◌, ◌≡◌, refl, ◌≢◌, false, some, List, [], ◌∷◌, ◌++◌, arith, has, Distinct, has-append,
  update, update_self, update_ne, length-append,
}
use mathlib.Core.List.{append_assoc}
use atlos.Dlist.{Ptr, null, Heap, tail, list_insert}
use atlos.Dlist.Chain.{Seg, IsRing, Seg-join}
use atlos.Dlist.Frame.{frame, Cut, cut}

-- The heap after `list_insert`.
abbrev pub inserted : Heap → Ptr → Ptr → Ptr → Heap
inserted h l e n = record {
  next = update (update h.next n (h.next e)) e n;
  prev = update (update h.prev n e) (h.next e) n;
  len = update h.len l ((h.len l + 1) % 2 ^ 32);
}

insert-run :
    (h : Heap) (l e n : Ptr)
    → l ≢ null
    → e ≢ null
    → n ≢ null
    → h.next e ≢ null
    → e ≢ n
    → list_insert l e n h ≡ some (tt, inserted h l e n)
unfolding list_insert
insert-run h l e n hl he hn hb ne = ground (arith, update_ne h.next n e (h.next e) ne)

Distinct-behind :
    (n : Ptr) (us : List Ptr) (e : Ptr) (ws : List Ptr)
    → Distinct (us ++ e ∷ ws)
    → has n (us ++ e ∷ ws) ≡ false
    → Distinct (us ++ e ∷ n ∷ ws)
Distinct-behind n [] e ws d out = (ground arith, (ground arith, d.1))
Distinct-behind n (x ∷ us) e ws d out = (
  ground (arith, has-append x us (e ∷ ws), has-append x us (e ∷ n ∷ ws)),
  Distinct-behind n us e ws d.1 (ground arith),
)

module _ (h : Heap) (l : Ptr) (us : List Ptr) (e : Ptr) (vs : List Ptr) (n : Ptr) where
  -- The two sides of the new element, after the links have been set.
  insert-front :
      Cut h l us e vs
      → has n (us ++ e ∷ (vs ++ tail l ∷ [])) ≡ false
      → Seg (inserted h l e n) l us e
  unfolding update
  insert-front c out =
      let ws = vs ++ tail l ∷ [] in
      frame h (inserted h l e n) us l e c.before c.front (record {
        nexts = λ a m.
            ground (arith, c.e_not_before a m, has-append a us (e ∷ ws), has-append n us (e ∷ ws));
        prevs = λ a m ne.
            ground (
              arith,
              c.sides a m,
              c.next_after,
              has-append a us (e ∷ []),
              has-append n us (e ∷ ws),
            );
      })

  insert-back :
      Cut h l us e vs
      → has n (us ++ e ∷ (vs ++ tail l ∷ [])) ≡ false
      → Seg (inserted h l e n) (h.next e) vs (tail l)
  unfolding update
  insert-back c out =
      let ws = vs ++ tail l ∷ [] in
      frame h (inserted h l e n) vs (h.next e) (tail l) c.after.1 c.back (record {
        nexts = λ a m.
            ground (arith, c.after.0, has-append a vs (tail l ∷ []), has-append n us (e ∷ ws));
        prevs = λ a m ne. ground (arith, has-append n us (e ∷ ws));
      })

  insert-chain :
      Cut h l us e vs
      → has n (us ++ e ∷ (vs ++ tail l ∷ [])) ≡ false
      → Seg (inserted h l e n) l (us ++ e ∷ n ∷ vs) (tail l)
  unfolding update
  insert-chain c out =
      let ws = vs ++ tail l ∷ [] in
      let en : e ≢ n = λ q. ground (arith, has-append n us (e ∷ ws)) in
      let bn : h.next e ≢ n = λ q. ground (arith, c.next_after, has-append n us (e ∷ ws)) in
      let to_n : update (update h.next n (h.next e)) e n e ≡ n = ground arith in
      let to_b : update (update h.next n (h.next e)) e n n ≡ h.next e = ground arith in
      Seg-join (inserted h l e n) us (e ∷ n ∷ vs) l (tail l) e (insert-front c out)
        (refl, rw to_n (ground arith), (to_n, rw to_b (ground arith), rw to_b (insert-back c out)))

  -- In a well-formed list, `list_insert` at an element `e` of it puts a new element `n` right
  -- behind `e`, keeps the list well formed and counts it.
  pub insert-IsRing :
      IsRing h l (us ++ e ∷ vs)
      → n ≢ null
      → has n ((us ++ e ∷ vs) ++ tail l ∷ []) ≡ false
      → (list_insert l e n h ≡ some (tt, inserted h l e n))
        × IsRing (inserted h l e n) l (us ++ e ∷ n ∷ vs)
  insert-IsRing ring hn out =
      let ws = vs ++ tail l ∷ [] in
      let c = cut h l us e vs ring in
      let out' : has n (us ++ e ∷ ws) ≡ false =
        rw (append_assoc us (e ∷ vs) (tail l ∷ [])) at out in
      let nn : has null (us ++ e ∷ ws) ≡ false =
        rw (append_assoc us (e ∷ vs) (tail l ∷ [])) at ring.non_null in
      let en : e ≢ n = λ q. ground (arith, has-append n us (e ∷ ws)) in
      let d : Distinct (us ++ e ∷ n ∷ ws) = Distinct-behind n us e ws c.all out' in
      (
        insert-run h l e n c.ne_null c.e_ne_null hn c.next_ne_null en,
        record {
          chain = insert-chain c out';
          distinct = rw (append_assoc us (e ∷ n ∷ vs) (tail l ∷ [])) d;
          non_null =
              rw (append_assoc us (e ∷ n ∷ vs) (tail l ∷ []))
                (ground (arith, has-append null us (e ∷ ws), has-append null us (e ∷ n ∷ ws)));
          count =
              rw update_self (
                omega
                  (arith, ring.count, length-append us (e ∷ vs), length-append us (e ∷ n ∷ vs)));
          small = rw update_self (omega arith);
        },
      )
