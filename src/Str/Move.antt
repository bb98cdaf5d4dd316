-- ===== src/Str/Move.antt =====
-- `memset`, `memcpy` and `memmove`: the whole memory after each.
use atlos.Base.{
  ℕ, zero, suc, ◌+◌, ◌-◌, ◌≤◌, ◌≡◌, ◌⊎◌, inl, inr, ◌&&◌, arith, fun_ext, ap, Bool-cases,
  if◌then◌else◌, ltb, leb, update,
}
use atlos.Str.{Mem, memset, memset_loop, memcpy, memmove, copy_up, copy_down}

-- Memory with the `n` bytes from `d` on replaced by those that stood from `s` on.
abbrev pub moved : Mem → ℕ → ℕ → ℕ → Mem
moved m d s n a = if leb d a && ltb a (d + n) then m (s + (a - d)) else m a

abbrev pub filled : Mem → ℕ → ℕ → ℕ → Mem
filled m p c n a = if leb p a && ltb a (p + n) then c else m a

memset_at : (n : ℕ) (m : Mem) (p c a : ℕ) → memset_loop m p c n a ≡ filled m p c n a
unfolding memset_loop update
memset_at zero m p c a = ground arith
memset_at (suc n) m p c a = ground (arith, memset_at n (update m p c) (p + 1) c a)

copy_up_at :
    (n : ℕ) (m : Mem) (d s a : ℕ) → (d ≤ s) ⊎ (s + n ≤ d) → copy_up m d s n a ≡ moved m d s n a
unfolding copy_up update
copy_up_at zero m d s a apart = ground arith
copy_up_at (suc n) m d s a apart = ground (arith, copy_up_at n (update m d (m s)) (d + 1) (s + 1) a)

copy_down_at :
    (n : ℕ) (m : Mem) (d s a : ℕ) → s ≤ d → copy_down m (d + n) (s + n) n a ≡ moved m d s n a
unfolding copy_down update
copy_down_at zero m d s a le = ground arith
copy_down_at (suc n) m d s a le =
    let d' : d + suc n - 1 ≡ d + n = omega arith in
    let s' : s + suc n - 1 ≡ s + n = omega arith in
    rw (d', s') (ground (arith, copy_down_at n (update m (d + n) (m (s + n))) d s a))

-- `memset` fills exactly the `n` bytes from `s` on.
pub memset-filled : (m : Mem) (s c n : ℕ) → memset m s c n ≡ (s, filled m s c n)
unfolding memset
memset-filled m s c n = ap (λ g. (s, g)) (fun_ext λ a. memset_at n m s c a)

-- `memmove` copies the `n` bytes from `src` on to `dst` as they stood before, and changes no other
-- byte, however the two blocks overlap.
pub memmove-moved : (m : Mem) (dst src n : ℕ) → memmove m dst src n ≡ (dst, moved m dst src n)
unfolding memmove
memmove-moved m dst src n = elim (Bool-cases (ltb src dst && ltb dst (src + n))) [
  | inl e ↦ rw e (ap (λ g. (dst, g)) (fun_ext λ a. copy_down_at n m dst src a (ground arith)))
  | inr e ↦ rw e (ap (λ g. (dst, g)) (fun_ext λ a. copy_up_at n m dst src a (ground arith)))
]

-- `memcpy` copies like `memmove` where the target is not behind the source inside its block.
pub memcpy-memmove :
    (m : Mem) (dst src n : ℕ)
    → (dst ≤ src) ⊎ (src + n ≤ dst)
    → memcpy m dst src n ≡ memmove m dst src n
unfolding memcpy memmove
memcpy-memmove m dst src n apart = ground arith
