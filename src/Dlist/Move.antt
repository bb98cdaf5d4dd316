-- ===== src/Dlist/Move.antt =====
-- An element that goes from one list to the end of another.
use atlos.Base.{
  ◌≡◌, refl, ◌≢◌, true, false, some, List, [], ◌∷◌, ◌++◌, arith, has, Distinct, has-append, ◌==◌,
  sym, ◌∙◌, ap,
}
use mathlib.Core.List.{append_assoc}
use mathlib.Core.Path.{subst}
use atlos.Dlist.{Ptr, null, Heap, tail, list_erase, list_push_back, list_insert}
use atlos.Dlist.Chain.{IsRing, IsList}
use atlos.Dlist.Frame.{has-ne}
use atlos.Dlist.Insert.{inserted, insert-IsRing}
use atlos.Dlist.Erase.{erased, erase-IsRing}
use atlos.Dlist.Ends.{last_of, init_of, snoc_eq, tail_prev}
use atlos.Dlist.Separate.{Apart, insert-Apart, erase-Apart}

shape : (x : Ptr) (us ws : List Ptr) → x ∷ (us ++ ws) ≡ init_of x us ++ last_of x us ∷ ws
shape x us ws =
    ap (λ t. t ++ ws) (snoc_eq x us) ∙ append_assoc (init_of x us) (last_of x us ∷ []) ws

-- What a list that shares no element with another one keeps from an element being erased.
Apart-erase :
    (k : Ptr) (zs : List Ptr) (l : Ptr) (us : List Ptr) (t : Ptr) (vs : List Ptr)
    → Apart k zs l (l ∷ (us ++ t ∷ vs))
    → Apart k zs l (l ∷ (us ++ vs))
Apart-erase k zs l us t vs apart a i = ground (
  arith,
  apart a i,
  has-append a us (t ∷ vs),
  has-append a us vs,
  has-append a (us ++ t ∷ vs) (tail l ∷ []),
  has-append a (us ++ vs) (tail l ∷ []),
)

erased_out : (t : Ptr) (us ws : List Ptr) → Distinct (us ++ t ∷ ws) → has t (us ++ ws) ≡ false
erased_out t [] ws d = d.0
erased_out t (x ∷ us) ws d = ground (arith, has-append x us (t ∷ ws), erased_out t us ws d.1)

push_back_run :
    (h g : Heap) (m e t : Ptr)
    → h.prev (tail m) ≡ e
    → list_insert m e t h ≡ some (tt, g)
    → list_push_back m t h ≡ some (tt, g)
unfolding list_push_back
push_back_run h g m e t back run =
    let some_tail : (tail m == null) ≡ false = ground arith in
    rw (list_push_back, back, some_tail, run) refl

-- The lists `l`, with `t` in it, and `m`, which share no element.
pub record Moves (h : Heap) (l : Ptr) (us : List Ptr) (t : Ptr) (vs : List Ptr) (m : Ptr)
    (ms : List Ptr) : Type 0 where
  pub from : IsList h l (us ++ t ∷ vs)
  pub to : IsList h m ms
  pub apart : Apart m (m ∷ ms) l (l ∷ (us ++ t ∷ vs))

module _ (h : Heap) (l : Ptr) (us : List Ptr) (t : Ptr) (vs : List Ptr) (m : Ptr)
    (ms : List Ptr) where
  abbrev between : Heap
  between = erased h l t

  abbrev pub moved : Heap
  moved = inserted between m (last_of m ms) t

  t_in : has t ((l ∷ (us ++ t ∷ vs)) ++ tail l ∷ []) ≡ true
  t_in = ground (arith, has-append t us (t ∷ vs), has-append t (us ++ t ∷ vs) (tail l ∷ []))

  t_out : Moves h l us t vs m ms → has t ((m ∷ ms) ++ tail m ∷ []) ≡ false
  t_out mv = ground (arith, mv.apart t, t_in)

  pub move-erase : Moves h l us t vs m ms → list_erase l t h ≡ some (t, between)
  move-erase mv =
      (erase-IsRing h l (init_of l us) (last_of l us) t vs (rw (shape l us (t ∷ vs)) at mv.from)).0

  kept_between :
      (k : Ptr) (zs : List Ptr)
      → Moves h l us t vs m ms
      → IsRing h k zs
      → Apart k zs l (l ∷ (us ++ t ∷ vs))
      → IsRing between k zs
  kept_between k zs mv ring apart =
      (erase-Apart h l k zs (init_of l us) (last_of l us) t vs (rw (shape l us (t ∷ vs)) at mv.from)
        ring (subst (λ w. Apart k zs l w) (shape l us (t ∷ vs)) apart)).1

  erased_from : Moves h l us t vs m ms → IsList between l (us ++ vs)
  erased_from mv =
      rw (shape l us vs)
        (erase-IsRing h l (init_of l us) (last_of l us) t vs
          (rw (shape l us (t ∷ vs)) at mv.from)).1

  to_between : Moves h l us t vs m ms → IsList between m ms
  to_between mv = kept_between m (m ∷ ms) mv mv.to mv.apart

  t_ne_null : Moves h l us t vs m ms → t ≢ null
  t_ne_null mv = has-ne t null ((l ∷ (us ++ t ∷ vs)) ++ tail l ∷ []) t_in mv.from.non_null

  inserted_at :
      (mv : Moves h l us t vs m ms)
      → (list_push_back m t between ≡ some (tt, moved)) × IsList moved m (ms ++ t ∷ [])
  inserted_at mv =
      let to = to_between mv in
      let e = last_of m ms in
      let us' = init_of m ms in
      let (run, ring) =
        insert-IsRing between m us' e [] t (rw (snoc_eq m ms) at to) (t_ne_null mv)
          (subst (λ w. has t (w ++ tail m ∷ []) ≡ false) (snoc_eq m ms) (t_out mv)) in
      let back = tail_prev between m ms to in
      let whole : us' ++ e ∷ t ∷ [] ≡ m ∷ (ms ++ t ∷ []) =
        sym (append_assoc us' (e ∷ []) (t ∷ [])) ∙ ap (λ w. w ++ t ∷ []) (sym (snoc_eq m ms)) in
      (push_back_run between moved m e t back run, rw whole at ring)

  kept :
      (k : Ptr) (zs : List Ptr)
      → Moves h l us t vs m ms
      → IsRing between k zs
      → Apart k zs m (m ∷ ms)
      → has t (zs ++ tail k ∷ []) ≡ false
      → IsRing moved k zs
  kept k zs mv ring apart out =
      insert-Apart between m k zs (init_of m ms) (last_of m ms) [] t
        (rw (snoc_eq m ms) at (to_between mv)) ring
        (subst (λ w. Apart k zs m w) (snoc_eq m ms) apart) out

pub Apart-sym :
    (l : Ptr) (xs : List Ptr) (m : Ptr) (ms : List Ptr) → Apart m ms l xs → Apart l xs m ms
Apart-sym l xs m ms apart a i = ground (arith, apart a)

-- Three lists of which no two share an element.
pub record Three (h : Heap) (l : Ptr) (xs : List Ptr) (m : Ptr) (ms : List Ptr) (k : Ptr)
    (ks : List Ptr) : Type 0 where
  pub first : IsList h l xs
  pub second : IsList h m ms
  pub third : IsList h k ks
  pub apart₁₂ : Apart m (m ∷ ms) l (l ∷ xs)
  pub apart₁₃ : Apart k (k ∷ ks) l (l ∷ xs)
  pub apart₂₃ : Apart k (k ∷ ks) m (m ∷ ms)

pub swap_first :
    (h : Heap) (l : Ptr) (xs : List Ptr) (m : Ptr) (ms : List Ptr) (k : Ptr) (ks : List Ptr)
    → Three h l xs m ms k ks
    → Three h m ms l xs k ks
swap_first h l xs m ms k ks three = record {
  first = three.second;
  second = three.first;
  third = three.third;
  apart₁₂ = Apart-sym l (l ∷ xs) m (m ∷ ms) three.apart₁₂;
  apart₁₃ = three.apart₂₃;
  apart₂₃ = three.apart₁₃;
}

pub swap_last :
    (h : Heap) (l : Ptr) (xs : List Ptr) (m : Ptr) (ms : List Ptr) (k : Ptr) (ks : List Ptr)
    → Three h l xs m ms k ks
    → Three h l xs k ks m ms
swap_last h l xs m ms k ks three = record {
  first = three.first;
  second = three.third;
  third = three.second;
  apart₁₂ = three.apart₁₃;
  apart₁₃ = three.apart₁₂;
  apart₂₃ = Apart-sym m (m ∷ ms) k (k ∷ ks) three.apart₂₃;
}

-- A list that gets a new element stays apart from one that does not have it.
Apart-push :
    (k : Ptr) (zs : List Ptr) (m : Ptr) (ms : List Ptr) (t : Ptr)
    → Apart k zs m (m ∷ ms)
    → has t (zs ++ tail k ∷ []) ≡ false
    → Apart k zs m (m ∷ (ms ++ t ∷ []))
Apart-push k zs m ms t apart out a i = ground (
  arith,
  apart a i,
  has-append a ms (t ∷ []),
  has-append a (ms ++ t ∷ []) (tail m ∷ []),
  has-append a ms (tail m ∷ []),
  has-ne a t (zs ++ tail k ∷ []) i out,
)

-- Of three lists that share no element, an element is erased from the first, which returns it, and
-- pushed to the back of the second. The three are then well formed and share no element.
pub move-Three :
    (h : Heap) (l : Ptr) (us : List Ptr) (t : Ptr) (vs : List Ptr) (m : Ptr) (ms : List Ptr)
    (k : Ptr) (ks : List Ptr)
    → Three h l (us ++ t ∷ vs) m ms k ks
    → (h₁ : Heap) × (h₂ : Heap) × (list_erase l t h ≡ some (t, h₁))
      × (list_push_back m t h₁ ≡ some (tt, h₂))
      × Three h₂ l (us ++ vs) m (ms ++ t ∷ []) k ks
move-Three h l us t vs m ms k ks three =
    let mv : Moves h l us t vs m ms = record {
      from = three.first;
      to = three.second;
      apart = three.apart₁₂;
    } in
    let (run, ring) = inserted_at h l us t vs m ms mv in
    let t_k : has t ((k ∷ ks) ++ tail k ∷ []) ≡ false =
      ground (arith, three.apart₁₃ t, t_in h l us t vs m ms) in
    let smaller = Apart-erase m (m ∷ ms) l us t vs three.apart₁₂ in
    let t_l : has t ((l ∷ (us ++ vs)) ++ tail l ∷ []) ≡ false =
      rw (append_assoc us vs (tail l ∷ [])) (
        erased_out t (l ∷ us) (vs ++ tail l ∷ [])
          (rw (append_assoc us (t ∷ vs) (tail l ∷ [])) at three.first.distinct)) in
    (
      between h l us t vs m ms,
      moved h l us t vs m ms,
      move-erase h l us t vs m ms mv,
      run,
      record {
        first =
            kept h l us t vs m ms l (l ∷ (us ++ vs)) mv (erased_from h l us t vs m ms mv)
              (Apart-sym l (l ∷ (us ++ vs)) m (m ∷ ms) smaller) t_l;
        second = ring;
        third =
            kept h l us t vs m ms k (k ∷ ks) mv
              (kept_between h l us t vs m ms k (k ∷ ks) mv three.third three.apart₁₃) three.apart₂₃
              t_k;
        apart₁₂ = Apart-sym m (m ∷ (ms ++ t ∷ [])) l (l ∷ (us ++ vs)) (
            Apart-push l (l ∷ (us ++ vs)) m ms t (Apart-sym l (l ∷ (us ++ vs)) m (m ∷ ms) smaller)
              t_l);
        apart₁₃ = Apart-erase k (k ∷ ks) l us t vs three.apart₁₃;
        apart₂₃ = Apart-push k (k ∷ ks) m ms t three.apart₂₃ t_k;
      },
    )
