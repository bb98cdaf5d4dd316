-- ===== src/Slab/Alloc/Init.antt =====
-- A new slab: all of its objects are free, in order.
use atlos.Base.{
  ℕ, zero, suc, ◌+◌, ◌<◌, ◌≤◌, ◌≡◌, refl, true, List, [], ◌∷◌, arith, length, has, Distinct, update,
}
use atlos.Dlist.{Ptr}
use atlos.Slab.{Slabs, obj_removed}
use atlos.Slab.Free.{FreeFrom, FreeFrom-frame, IsSlab}
use atlos.Slab.Alloc.{init_list, empty_slab_t_init}

-- `n` objects from `i` on.
abbrev pub upto : ℕ → ℕ → List ℕ
upto zero i = []
upto (suc n) i = i ∷ upto n (i + 1)

has-upto : (n i j : ℕ) → has j (upto n i) ≡ true → i ≤ j
has-upto zero i j m = ground arith
has-upto (suc n) i j m = ground (arith, has-upto n (i + 1) j)

has-upto_in : (n i j : ℕ) → i ≤ j → j < i + n → has j (upto n i) ≡ true
has-upto_in zero i j le lt = absurd (omega arith)
has-upto_in (suc n) i j le lt = ground (arith, has-upto_in n (i + 1) j)

upto-Distinct : (n i : ℕ) → Distinct (upto n i)
upto-Distinct zero i = tt
upto-Distinct (suc n) i = (ground (arith, has-upto n (i + 1) i), upto-Distinct n (i + 1))

length-upto : (n i : ℕ) → length (upto n i) ≡ n
length-upto zero i = refl
length-upto (suc n) i = ground (arith, length-upto n (i + 1))

init_list-before : (n i : ℕ) (m : ℕ → ℕ) (j : ℕ) → j < i → init_list n i m j ≡ m j
unfolding init_list update
init_list-before zero i m j lt = refl
init_list-before (suc n) i m j lt =
    ground (arith, init_list-before n (i + 1) (update m i (i + 1)) j)

init_list-FreeFrom :
    (n i : ℕ) (m : ℕ → ℕ) (total free : ℕ)
    → i + n ≡ total
    → free ≡ i
    → FreeFrom (init_list n i m) total free (upto n i)
unfolding init_list update
init_list-FreeFrom zero i m total free sum first = omega arith
init_list-FreeFrom (suc n) i m total free sum first =
    let m' = update m i (i + 1) in
    let next : init_list n (i + 1) m' i ≡ i + 1 = ground (arith, init_list-before n (i + 1) m' i) in
    (
      first,
      omega arith,
      init_list-FreeFrom n (i + 1) m' total (init_list n (i + 1) m' i) (omega arith) next,
    )

-- After `empty_slab_t_init` with fewer objects than the mark of a removed object, all of them are
-- free, from 0 on.
pub init-IsSlab :
    (cache slab : Ptr) (objs : ℕ) (s : Slabs)
    → objs < obj_removed
    → IsSlab (empty_slab_t_init cache slab objs s) slab (upto objs 0)
unfolding empty_slab_t_init update
init-IsSlab cache slab objs s small = record {
  chain =
      FreeFrom-frame (init_list objs 0 (s.obj_list slab))
        ((empty_slab_t_init cache slab objs s).obj_list slab)
        ((empty_slab_t_init cache slab objs s).total_objs slab) (upto objs 0)
        ((empty_slab_t_init cache slab objs s).free slab) (λ i m. ground arith)
        (init_list-FreeFrom objs 0 (s.obj_list slab)
          ((empty_slab_t_init cache slab objs s).total_objs slab)
          ((empty_slab_t_init cache slab objs s).free slab) (ground arith) (ground arith));
  distinct = upto-Distinct objs 0;
  count = ground (arith, length-upto objs 0);
  others = λ i lt out. ground (arith, has-upto_in objs 0 i);
  small = ground arith;
}
