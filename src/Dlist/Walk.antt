-- ===== src/Dlist/Walk.antt =====
-- `list_elem_find` and `list_traversal`: the walk along the links meets each element once, in order.
use atlos.Base.{
  ℕ, zero, suc, ◌≡◌, Bool, ◌≢◌, false, Option, some, List, [], ◌∷◌, ◌++◌, arith, has, Distinct,
  has-append, length, if◌then◌else◌, ◌<◌,
}
use atlos.Dlist.{Ptr, null, Heap, tail, find_from, list_elem_find, traverse_from, list_traversal}
use atlos.Dlist.Chain.{Seg, IsList}
use atlos.Dlist.Frame.{cut}
use atlos.Dlist.Ends.{list_empty_lem}

-- The first element that the callback accepts, NULL if there is none.
abbrev pub first_of : (Ptr → Bool) → List Ptr → Ptr
first_of f [] = null
first_of f (x ∷ xs) = if f x then x else first_of f xs

-- What the callback returns at each element.
abbrev pub Answers : (Ptr → Option Bool) → (Ptr → Bool) → List Ptr → Type 0
Answers func f [] = Unit
Answers func f (x ∷ xs) = (func x ≡ some (f x)) × Answers func f xs

module _ (h : Heap) (l : Ptr) where
  find_from-has :
      (k : ℕ) (xs : List Ptr) (e p : Ptr)
      → Seg h p xs (tail l)
      → Distinct (xs ++ tail l ∷ [])
      → has null xs ≡ false
      → length xs < k
      → find_from k l e p h ≡ some (has e xs, h)
  unfolding find_from
  find_from-has zero xs e p s d nn f = absurd (omega arith)
  find_from-has (suc k) [] e p s d nn f = ground arith
  find_from-has (suc k) (x ∷ xs) e p s d nn f = ground (
    arith,
    has-append x xs (tail l ∷ []),
    find_from-has k xs e (h.next x) s.2 d.1 (ground arith) (omega arith),
  )

  traverse_from-first :
      (k : ℕ) (xs : List Ptr) (func : Ptr → Option Bool) (f : Ptr → Bool) (p : Ptr)
      → Answers func f xs
      → Seg h p xs (tail l)
      → Distinct (xs ++ tail l ∷ [])
      → has null xs ≡ false
      → length xs < k
      → traverse_from k l func p h ≡ some (first_of f xs, h)
  unfolding traverse_from
  traverse_from-first zero xs func f p q s d nn fuel = absurd (omega arith)
  traverse_from-first (suc k) [] func f p q s d nn fuel = ground arith
  traverse_from-first (suc k) (x ∷ xs) func f p q s d nn fuel = ground (
    arith,
    has-append x xs (tail l ∷ []),
    q.0,
    traverse_from-first k xs func f (h.next x) q.1 s.2 d.1 (ground arith) (omega arith),
  )

  -- Given a round more than the list has elements, `list_elem_find` ends and says whether the
  -- element is in the list; the memory is as before.
  pub find-has :
      (fuel : ℕ) (xs : List Ptr) (e : Ptr)
      → IsList h l xs
      → e ≢ null
      → length xs < fuel
      → list_elem_find fuel l e h ≡ some (has e xs, h)
  unfolding list_elem_find
  find-has fuel xs e is ne f =
      let nl = (cut h l [] l xs is).ne_null in
      ground (
        arith,
        has-append null xs (tail l ∷ []),
        find_from-has fuel xs e (h.next l) is.chain.2 is.distinct.1
            (ground (arith, is.non_null, has-append null xs (tail l ∷ []))) f,
      )

  -- Given a round more than the list has elements, `list_traversal` ends with the first element
  -- that the callback accepts, or with NULL if it accepts none, provided that the callback answers at
  -- each of them; the memory is as before.
  pub traversal-first :
      (fuel : ℕ) (xs : List Ptr) (func : Ptr → Option Bool) (f : Ptr → Bool)
      → Answers func f xs
      → IsList h l xs
      → length xs < fuel
      → list_traversal fuel l func h ≡ some (first_of f xs, h)
  unfolding list_traversal
  traversal-first fuel xs func f q is fu =
      let nl = (cut h l [] l xs is).ne_null in
      ground (
        arith,
        is.chain,
        traverse_from-first fuel xs func f (h.next l) q is.chain.2 is.distinct.1
            (ground (arith, is.non_null, has-append null xs (tail l ∷ []))) fu,
        list_empty_lem h l xs is,
      )
