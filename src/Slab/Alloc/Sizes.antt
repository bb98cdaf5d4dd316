-- ===== src/Slab/Alloc/Sizes.antt =====
-- The cache that serves a size.
use atlos.Base.{
  ℕ, ◌+◌, ◌^◌, ◌<◌, ◌≤◌, ◌≡◌, refl, Bool, true, ◌&&◌, ◌||◌, arith, leb, ltb, ◌==◌, holds_below,
  below_holds, ◌⊎◌, inl, inr, ℕ-eq_cases,
}
use atlos.Pmm.{next_pow_of_2}
use atlos.Slab.{num_cached, size2index, bit_length}
use atlos.Slab.Alloc.{index_for}

fits : ℕ → Bool
unfolding index_for size2index bit_length next_pow_of_2
fits n =
    (n == 0)
    || (ltb (index_for n) num_cached
        && leb n (2 ^ (4 + index_for n))
        && ((index_for n == 0) || ltb (2 ^ (3 + index_for n)) n))

all_fit : holds_below 8193 fits ≡ true
unfolding fits holds_below index_for size2index bit_length next_pow_of_2
all_fit = refl

read_test :
    (n i p q : ℕ)
    → 0 < n
    → ((n == 0) || (ltb i num_cached && leb n p && ((i == 0) || ltb q n))) ≡ true
    → (i < num_cached) × (n ≤ p) × ((i ≡ 0) ⊎ (q < n))
read_test n i p q pos test = (
  ground arith,
  ground arith,
  elim (ℕ-eq_cases i 0) [ inl z ↦ inl z | inr nz ↦ inr (ground arith) ],
)

-- Every size that `kmalloc` allows is served by the cache with the smallest objects that are large
-- enough.
pub index_for-smallest :
    (n : ℕ)
    → 0 < n
    → n ≤ 8192
    → (index_for n < num_cached)
      × (n ≤ 2 ^ (4 + index_for n))
      × ((index_for n ≡ 0) ⊎ (2 ^ (3 + index_for n) < n))
unfolding fits
index_for-smallest n pos le =
    read_test n (index_for n) (2 ^ (4 + index_for n)) (2 ^ (3 + index_for n)) pos
      (below_holds 8193 fits n all_fit (omega arith))
