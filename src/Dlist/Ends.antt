-- ===== src/Dlist/Ends.antt =====
-- The operations at the two ends of a list, as a double-ended queue of elements.
use atlos.Base.{
  ◌≡◌, refl, Bool, ◌≢◌, true, false, some, List, [], ◌∷◌, ◌++◌, arith, has, has-append, sym, ◌∙◌,
  ap, update,
}
use mathlib.Core.List.{append_assoc}
use mathlib.Core.Path.{subst}
use atlos.Dlist.{
  Ptr, null, Heap, tail, list_init, list_empty, list_front, list_back, list_push_back,
  list_push_front, list_pop_back, list_pop_front, list_erase,
}
use atlos.Dlist.Chain.{IsList}
use atlos.Dlist.Frame.{cut}
use atlos.Dlist.Insert.{inserted, insert-IsRing}
use atlos.Dlist.Erase.{erased, erase-IsRing}

-- The last of `x` and `xs`, and what stands before it.
abbrev pub last_of : Ptr → List Ptr → Ptr
last_of x [] = x
last_of x (y ∷ xs) = last_of y xs

abbrev pub init_of : Ptr → List Ptr → List Ptr
init_of x [] = []
init_of x (y ∷ xs) = x ∷ init_of y xs

pub snoc_eq : (x : Ptr) (xs : List Ptr) → x ∷ xs ≡ init_of x xs ++ last_of x xs ∷ []
snoc_eq x [] = refl
snoc_eq x (y ∷ xs) = ap (λ t. x ∷ t) (snoc_eq y xs)

-- The tail element points back at the last element.
pub tail_prev :
    (h : Heap) (l : Ptr) (xs : List Ptr) → IsList h l xs → h.prev (tail l) ≡ last_of l xs
tail_prev h l xs is =
    let c = cut h l (init_of l xs) (last_of l xs) [] (rw (snoc_eq l xs) at is) in
    rw c.back at c.linked

module _ (h : Heap) (l : Ptr) (xs : List Ptr) where
  ne_null : IsList h l xs → l ≢ null
  ne_null is = (cut h l [] l xs is).ne_null

  -- Pushing at the back appends, for an element that is not yet in the list.
  pub push_back-IsList :
      (n : Ptr)
      → IsList h l xs
      → n ≢ null
      → has n ((l ∷ xs) ++ tail l ∷ []) ≡ false
      → (g : Heap) × (list_push_back l n h ≡ some (tt, g)) × IsList g l (xs ++ n ∷ [])
  unfolding list_push_back
  push_back-IsList n is hn out =
      let e = last_of l xs in
      let us = init_of l xs in
      let (run, ring) =
        insert-IsRing h l us e [] n (rw (snoc_eq l xs) at is) hn
          (subst (λ t. has n (t ++ tail l ∷ []) ≡ false) (snoc_eq l xs) out) in
      let shape : us ++ e ∷ n ∷ [] ≡ l ∷ (xs ++ n ∷ []) =
        sym (append_assoc us (e ∷ []) (n ∷ [])) ∙ ap (λ t. t ++ n ∷ []) (sym (snoc_eq l xs)) in
      (inserted h l e n, ground (arith, tail_prev h l xs is), rw shape at ring)

  -- Pushing at the front puts the element first.
  pub push_front-IsList :
      (n : Ptr)
      → IsList h l xs
      → n ≢ null
      → has n ((l ∷ xs) ++ tail l ∷ []) ≡ false
      → (g : Heap) × (list_push_front l n h ≡ some (tt, g)) × IsList g l (n ∷ xs)
  unfolding list_push_front
  push_front-IsList n is hn out =
      let (run, ring) = insert-IsRing h l [] l xs n is hn out in (inserted h l l n, run, ring)

-- Popping at the front returns the first element and leaves the others.
pub pop_front-IsList :
    (h : Heap) (l x : Ptr) (xs : List Ptr)
    → IsList h l (x ∷ xs)
    → (g : Heap) × (list_pop_front l h ≡ some (x, g)) × IsList g l xs
unfolding list_pop_front
pop_front-IsList h l x xs is =
    let (run, ring) = erase-IsRing h l [] l x xs is in
    let nl = ne_null h l (x ∷ xs) is in (erased h l x, ground (arith, is.chain.2.0), ring)

-- Popping at the back returns the last element and leaves the others.
pub pop_back-IsList :
    (h : Heap) (l : Ptr) (xs : List Ptr) (x : Ptr)
    → IsList h l (xs ++ x ∷ [])
    → (g : Heap) × (list_pop_back l h ≡ some (x, g)) × IsList g l xs
unfolding list_pop_back
pop_back-IsList h l xs x is =
    let shape : l ∷ (xs ++ x ∷ []) ≡ init_of l xs ++ last_of l xs ∷ x ∷ [] =
      ap (λ t. t ++ x ∷ []) (snoc_eq l xs)
      ∙ append_assoc (init_of l xs) (last_of l xs ∷ []) (x ∷ []) in
    let c = cut h l (l ∷ xs) x [] is in
    let back : h.prev (tail l) ≡ x = rw c.back at c.linked in
    let (run, ring) = erase-IsRing h l (init_of l xs) (last_of l xs) x [] (rw shape at is) in
    (erased h l x, ground arith, rw (snoc_eq l xs) ring)

-- On an empty list both pops return NULL and change nothing.
pub pop-empty :
    (h : Heap) (l : Ptr)
    → IsList h l []
    → (list_pop_front l h ≡ some (null, h)) × (list_pop_back l h ≡ some (null, h))
unfolding list_pop_front list_pop_back list_erase
pop-empty h l is =
    let nl = ne_null h l [] is in (ground (arith, is.chain), ground (arith, tail_prev h l [] is))

-- `list_front`, `list_back` and `list_empty` read a list without changing it.
abbrev pub front_of : List Ptr → Ptr
front_of [] = null
front_of (x ∷ xs) = x

abbrev pub back_of : List Ptr → Ptr
back_of [] = null
back_of (x ∷ xs) = last_of x xs

abbrev pub is_nil : List Ptr → Bool
is_nil [] = true
is_nil (x ∷ xs) = false

pub list_empty_lem :
    (h : Heap) (l : Ptr) (xs : List Ptr) → IsList h l xs → list_empty l h ≡ some (is_nil xs, h)
unfolding list_empty
list_empty_lem h l [] is = ground (arith, ne_null h l [] is, is.chain)
list_empty_lem h l (x ∷ xs) is =
    ground (arith, ne_null h l (x ∷ xs) is, is.chain, is.distinct, has-append x xs (tail l ∷ []))

pub front_back :
    (h : Heap) (l : Ptr) (xs : List Ptr)
    → IsList h l xs
    → (list_front l h ≡ some (front_of xs, h)) × (list_back l h ≡ some (back_of xs, h))
unfolding list_front list_back
front_back h l [] is =
    let nl = ne_null h l [] is in (ground (arith, is.chain), ground (arith, is.chain))
front_back h l (x ∷ xs) is =
    let nl = ne_null h l (x ∷ xs) is in
    let out = has-append x xs (tail l ∷ []) in
    (
      ground (arith, is.chain, is.distinct),
      ground (arith, is.chain, is.distinct, tail_prev h l (x ∷ xs) is),
    )

-- `list_init` makes a well-formed empty list of any memory at a non-null address.
pub init-IsList :
    (h : Heap) (l : Ptr) → l ≢ null → (g : Heap) × (list_init l h ≡ some (tt, g)) × IsList g l []
unfolding list_init update
init-IsList h l nl = (
  record {
    next = update (update h.next l (tail l)) (tail l) null;
    prev = update (update h.prev l null) (tail l) l;
    len = update h.len l 0;
  },
  ground arith,
  record {
    chain = ground arith;
    distinct = ground arith;
    non_null = ground arith;
    count = ground arith;
    small = ground arith;
  },
)
