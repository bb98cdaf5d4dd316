-- ===== src/Str/Copy.antt =====
-- `strcpy` and `strncpy`: the whole memory after each.
use atlos.Base.{
  ℕ, zero, suc, ◌+◌, ◌-◌, ◌<◌, ◌≤◌, ◌≡◌, refl, ◌⊎◌, inl, inr, ◌&&◌, arith, fun_ext, some, List, [],
  ◌∷◌, length, get_or, if◌then◌else◌, ◌∙◌, ltb, leb, update, ap, Bool-cases, ◌==◌,
}
use atlos.Str.{Mem, strcpy, strcpy_loop, strncpy, strncpy_loop}
use atlos.Str.Text.{IsStr, IsStr-frame}

-- Memory with the `n` bytes from `d` on replaced by `xs`, padded with null bytes or cut off.
abbrev pub written : Mem → ℕ → List ℕ → ℕ → Mem
written m d xs n a = if leb d a && ltb a (d + n) then get_or xs (a - d) 0 else m a

-- The `n` bytes from `d` on and the string `xs` at `s` share no byte.
abbrev pub Disjoint : ℕ → ℕ → ℕ → List ℕ → Type 0
Disjoint d n s xs = (d + n ≤ s) ⊎ (s + length xs < d)

module _ (m : Mem) where
  pub written_next :
      (d x n a : ℕ) (xs : List ℕ)
      → written (update m d x) (d + 1) xs n a ≡ written m d (x ∷ xs) (suc n) a
  unfolding update
  written_next d x n a xs = elim (Bool-cases (ltb d a)) [
    | inl e ↦ let next : a - d ≡ suc (a - (d + 1)) = ground arith in rw next (ground arith)
    | inr e ↦ elim (Bool-cases (a == d)) [
      | inl q ↦ let none_left : a - d ≡ 0 = ground arith in rw none_left (ground arith)
      | inr q ↦ ground arith
    ]
  ]

  written_pad : (d n a : ℕ) → written (update m d 0) (d + 1) [] n a ≡ written m d [] (suc n) a
  unfolding update
  written_pad d n a = ground arith

strcpy_at :
    (f : ℕ) (xs : List ℕ) (m : Mem) (d s : ℕ)
    → IsStr m s xs
    → Disjoint d (suc (length xs)) s xs
    → length xs < f
    → strcpy_loop f m d s ≡ some (written m d xs (suc (length xs)))
unfolding strcpy_loop update
strcpy_at zero xs m d s h apart fuel = absurd (omega arith)
strcpy_at (suc f) [] m d s h apart fuel = ground (arith, ap some (fun_ext (written_pad m d 0)))
strcpy_at (suc f) (x ∷ xs) m d s h apart fuel =
    let ih =
      strcpy_at f xs (update m d x) (d + 1) (s + 1)
        (IsStr-frame m (update m d x) xs (s + 1) (λ a p q. ground arith) h.2) (ground arith)
        (omega arith) in
    let step = fun_ext (λ a. written_next m d x (suc (length xs)) a xs) in
    rw h.0 (ground (arith, ih, ap some step))

strncpy_at :
    (n : ℕ) (xs : List ℕ) (m : Mem) (d s a : ℕ)
    → IsStr m s xs
    → Disjoint d n s xs
    → strncpy_loop m d s n a ≡ written m d xs n a
unfolding strncpy_loop update
strncpy_at zero xs m d s a h apart = ground arith
strncpy_at (suc n) [] m d s a h apart =
    rw h (
      strncpy_at n [] (update m d 0) (d + 1) s a (ground arith) (ground arith)
      ∙ written_pad m d n a)
strncpy_at (suc n) (x ∷ xs) m d s a h apart =
    let ih =
      strncpy_at n xs (update m d x) (d + 1) (s + 1) a
        (IsStr-frame m (update m d x) xs (s + 1) (λ b p q. ground arith) h.2) (ground arith) in
    rw h.0 (ground (arith, ih, written_next m d x n a xs))

-- Given a round more than the source string has bytes, `strcpy` ends, writes exactly the string and
-- its null byte from `dst` on and returns `dst`, if the two places share no byte.
pub strcpy-written :
    (f : ℕ) (m : Mem) (dst src : ℕ) (xs : List ℕ)
    → IsStr m src xs
    → Disjoint dst (suc (length xs)) src xs
    → length xs < f
    → strcpy f m dst src ≡ some (dst, written m dst xs (suc (length xs)))
unfolding strcpy
strcpy-written f m dst src xs h apart fuel = rw (strcpy, strcpy_at f xs m dst src h apart fuel) refl

-- `strncpy` writes exactly `len` bytes from `dst` on, the string cut off or padded with null bytes,
-- and returns `dst`, if they share no byte with the string.
pub strncpy-written :
    (m : Mem) (dst src len : ℕ) (xs : List ℕ)
    → IsStr m src xs
    → Disjoint dst len src xs
    → strncpy m dst src len ≡ (dst, written m dst xs len)
unfolding strncpy
strncpy-written m dst src len xs h apart =
    ap (λ g. (dst, g)) (fun_ext λ a. strncpy_at len xs m dst src a h apart)
