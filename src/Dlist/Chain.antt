-- ===== src/Dlist/Chain.antt =====
-- What a well-formed list is: the elements from the head on, linked both ways and distinct.
use atlos.Base.{
  ◌<◌, ◌+◌, ◌%◌, ◌^◌, ◌≡◌, refl, true, false, ◌||◌, List, [], ◌∷◌, ◌++◌, arith, length, has,
  Distinct, has-append, ◌==◌,
}
use atlos.Dlist.{Ptr, null, Heap, tail}

-- From `p` the links lead through `xs` to `q`, and the way back from each next element is right.
abbrev pub Seg : Heap → Ptr → List Ptr → Ptr → Type 0
Seg h p [] q = p ≡ q
Seg h p (x ∷ xs) q = (p ≡ x) × (h.prev (h.next x) ≡ x) × Seg h (h.next x) xs q

-- `ys` are the elements of the list `l`, its head element `l` among them, without the tail element.
pub record IsRing (h : Heap) (l : Ptr) (ys : List Ptr) : Type 0 where
  pub chain : Seg h l ys (tail l)
  pub distinct : Distinct (ys ++ tail l ∷ [])
  pub non_null : has null (ys ++ tail l ∷ []) ≡ false
  pub count : (h.len l + 1) % 2 ^ 32 ≡ length ys % 2 ^ 32
  pub small : h.len l < 2 ^ 32

-- The list `l` holds the elements `xs`, in order.
abbrev pub IsList : Heap → Ptr → List Ptr → Type 0
IsList h l xs = IsRing h l (l ∷ xs)

module _ (h : Heap) where
  pub Seg-split :
      (xs ys : List Ptr) (p q : Ptr)
      → Seg h p (xs ++ ys) q
      → (r : Ptr) × Seg h p xs r × Seg h r ys q
  Seg-split [] ys p q s = (p, refl, s)
  Seg-split (x ∷ xs) ys p q s =
      let (r, front, back) = Seg-split xs ys (h.next x) q s.2 in (r, (s.0, s.1, front), back)

  pub Seg-join :
      (xs ys : List Ptr) (p q r : Ptr) → Seg h p xs r → Seg h r ys q → Seg h p (xs ++ ys) q
  Seg-join [] ys p q r s t = rw s t
  Seg-join (x ∷ xs) ys p q r s t = (s.0, s.1, Seg-join xs ys (h.next x) q r s.2 t)

  -- The first element of a segment is among its elements and its end.
  pub Seg-first : (xs : List Ptr) (p q : Ptr) → Seg h p xs q → has p (xs ++ q ∷ []) ≡ true
  Seg-first [] p q s = ground arith
  Seg-first (x ∷ xs) p q s = ground arith

-- What is on one side of a list without repetition is not on the other.
pub Distinct-apart :
    (a : Ptr) (xs ys : List Ptr) → Distinct (xs ++ ys) → has a xs ≡ true → has a ys ≡ false
Distinct-apart a [] ys d m = ground arith
Distinct-apart a (x ∷ xs) ys d m = ground (arith, Distinct-apart a xs ys d.1, has-append a xs ys)

pub Distinct-right : (xs ys : List Ptr) → Distinct (xs ++ ys) → Distinct ys
Distinct-right [] ys d = d
Distinct-right (x ∷ xs) ys d = Distinct-right xs ys d.1

pub Distinct-left : (xs ys : List Ptr) → Distinct (xs ++ ys) → Distinct xs
Distinct-left [] ys d = tt
Distinct-left (x ∷ xs) ys d = (ground (arith, has-append x xs ys), Distinct-left xs ys d.1)

pub Distinct-insert :
    (n : Ptr) (xs ys : List Ptr)
    → Distinct (xs ++ ys)
    → has n (xs ++ ys) ≡ false
    → Distinct (xs ++ n ∷ ys)
Distinct-insert n [] ys d out = (out, d)
Distinct-insert n (x ∷ xs) ys d out = (
  ground (arith, has-append x xs ys, has-append x xs (n ∷ ys)),
  Distinct-insert n xs ys d.1 (ground arith),
)

pub Distinct-erase : (n : Ptr) (xs ys : List Ptr) → Distinct (xs ++ n ∷ ys) → Distinct (xs ++ ys)
Distinct-erase n [] ys d = d.1
Distinct-erase n (x ∷ xs) ys d =
    (ground (arith, has-append x xs ys, has-append x xs (n ∷ ys)), Distinct-erase n xs ys d.1)

pub has-insert :
    (a n : Ptr) (xs ys : List Ptr) → has a (xs ++ n ∷ ys) ≡ ((a == n) || has a (xs ++ ys))
has-insert a n xs ys = ground (arith, has-append a xs (n ∷ ys), has-append a xs ys)
