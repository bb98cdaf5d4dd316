-- ===== src/Slab/Free.antt =====
-- The free objects of a slab: a list through `obj_list` from `free` on.
use atlos.Base.{
  ℕ, zero, suc, ◌+◌, ◌<◌, ◌≤◌, ◌≡◌, refl, true, false, List, [], ◌∷◌, arith, length, has, Distinct,
  if◌then◌else◌, ltb, update, sym,
}
use atlos.Slab.{Slabs, obj_removed, take_obj, give_obj}
use atlos.Dlist.{Ptr}
use atlos.Dlist.Frame.{has-ne}

-- From the object `free` on, `list` leads through `xs` to `total`, which is no object.
abbrev pub FreeFrom : (ℕ → ℕ) → ℕ → ℕ → List ℕ → Type 0
FreeFrom list total free [] = free ≡ total
FreeFrom list total free (x ∷ xs) = (free ≡ x) × (x < total) × FreeFrom list total (list x) xs

-- The objects `xs` of the slab are free, in this order, and all others are marked as removed.
pub record IsSlab (s : Slabs) (slab : Ptr) (xs : List ℕ) : Type 0 where
  pub chain : FreeFrom (s.obj_list slab) (s.total_objs slab) (s.free slab) xs
  pub distinct : Distinct xs
  pub count : s.free_objs slab ≡ length xs
  pub others : (i : ℕ) → i < s.total_objs slab → has i xs ≡ false → s.obj_list slab i ≡ obj_removed
  pub small : s.total_objs slab < obj_removed

pub FreeFrom-frame :
    (list list' : ℕ → ℕ) (total : ℕ) (xs : List ℕ) (free : ℕ)
    → ((i : ℕ) → has i xs ≡ true → list' i ≡ list i)
    → FreeFrom list total free xs
    → FreeFrom list' total free xs
FreeFrom-frame list list' total [] free same chain = chain
FreeFrom-frame list list' total (x ∷ xs) free same chain =
    let here : list' x ≡ list x = same x (ground arith) in
    (
      chain.0,
      chain.1,
      rw here (FreeFrom-frame list list' total xs (list x) (λ i m. same i (ground arith)) chain.2),
    )

-- How many of the numbers below `n` are among `xs`.
abbrev count_in : ℕ → List ℕ → ℕ
count_in zero xs = 0
count_in (suc n) xs = count_in n xs + (if has n xs then 1 else 0)

count_in-le : (n : ℕ) (xs : List ℕ) → count_in n xs ≤ n
count_in-le zero xs = omega arith
count_in-le (suc n) xs = ground (arith, count_in-le n xs)

count_in-cons :
    (n x : ℕ) (xs : List ℕ)
    → has x xs ≡ false
    → count_in n (x ∷ xs) ≡ count_in n xs + (if ltb x n then 1 else 0)
count_in-cons zero x xs out = ground arith
count_in-cons (suc n) x xs out = ground (arith, count_in-cons n x xs out)

count_in-nil : (n : ℕ) → count_in n [] ≡ 0
count_in-nil zero = refl
count_in-nil (suc n) = ground (arith, count_in-nil n)

length-count_in :
    (list : ℕ → ℕ) (total free : ℕ) (xs : List ℕ)
    → FreeFrom list total free xs
    → Distinct xs
    → length xs ≡ count_in total xs
length-count_in list total free [] chain d = sym (count_in-nil total)
length-count_in list total free (x ∷ xs) chain d = ground (
  arith,
  count_in-cons total x xs d.0,
  length-count_in list total (list x) xs chain.2 d.1,
  chain.1,
)

pub free_le :
    (s : Slabs) (slab : Ptr) (xs : List ℕ) → IsSlab s slab xs → length xs ≤ s.total_objs slab
free_le s slab xs is = ground (
  arith,
  length-count_in (s.obj_list slab) (s.total_objs slab) (s.free slab) xs is.chain is.distinct,
  count_in-le (s.total_objs slab) xs,
)

module _ (s : Slabs) (slab : Ptr) (x : ℕ) (xs : List ℕ) where
  -- Taking the first free object leaves the others free, in order.
  pub take-IsSlab : IsSlab s slab (x ∷ xs) → IsSlab (take_obj slab s) slab xs
  unfolding take_obj update
  take-IsSlab is =
      let next : (take_obj slab s).free slab ≡ s.obj_list slab x = ground (arith, is.chain.0) in
      record {
        chain =
            FreeFrom-frame (s.obj_list slab) ((take_obj slab s).obj_list slab) (s.total_objs slab)
              xs ((take_obj slab s).free slab)
              (λ i m. ground (arith, is.chain.0, has-ne i x xs m is.distinct.0))
              (rw next is.chain.2);
        distinct = is.distinct.1;
        count = ground (arith, is.count);
        others = λ i lt out. ground (arith, is.chain.0, is.others i lt);
        small = is.small;
      }

  -- An object given back becomes the first free one.
  pub give-IsSlab :
      IsSlab s slab xs
      → x < s.total_objs slab
      → has x xs ≡ false
      → IsSlab (give_obj slab x s) slab (x ∷ xs)
  unfolding give_obj update
  give-IsSlab is lt out =
      let first_next : (give_obj slab x s).obj_list slab x ≡ s.free slab = ground arith in
      let room : suc (length xs) ≤ s.total_objs slab = ground (
        arith,
        length-count_in (s.obj_list slab) (s.total_objs slab) (s.free slab) xs is.chain is.distinct,
        count_in-le (s.total_objs slab) (x ∷ xs),
        count_in-cons (s.total_objs slab) x xs out,
      ) in
      record {
        chain = (
          ground arith,
          lt,
          rw first_next (
              FreeFrom-frame (s.obj_list slab) ((give_obj slab x s).obj_list slab)
                (s.total_objs slab) xs (s.free slab) (λ i m. ground (arith, has-ne i x xs m out))
                is.chain),
        );
        distinct = (out, is.distinct);
        count = ground (arith, room, is.small, is.count);
        others = λ i lt' out'. ground (arith, is.others i lt');
        small = is.small;
      }
