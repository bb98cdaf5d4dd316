-- ===== src/Buddy/Fix.antt =====
-- `fix_parent_buddy_size`: walking up from a changed element makes every parent agree again.
use native.Mathlib.Nat.{pow-suc, one-le-pow}
use atlos.Base.{
  ℕ, zero, suc, ◌+◌, ◌*◌, ◌/◌, ◌^◌, ◌≤◌, ◌<◌, ◌≡◌, refl, arith, ◌⊎◌, inl, inr, update, update_ne,
  ◌∙◌, ◌==◌, false, ne→==,
}
use atlos.Buddy.{combine, fix_loop, fix_parent_buddy_size}
use atlos.Buddy.Node.{at, parent_at, left_at, right_at, at_inj, half_lt}

-- The walk of `fix_loop` in terms of levels: from the element `o` of level `l` up to the root.
unfoldable pub fix_up : (ℕ → ℕ) → ℕ → ℕ → ℕ → ℕ
fix_up m zero o = update m (at zero o) (combine (m (at 1 (2 * o))) (m (at 1 (2 * o + 1))))
fix_up m (suc l) o =
    fix_up
      (update m (at (suc l) o)
        (combine (m (at (suc (suc l)) (2 * o))) (m (at (suc (suc l)) (2 * o + 1)))))
      l (o / 2)

fix_loop-up :
    (l f : ℕ) (m : ℕ → ℕ) (o : ℕ) → o < 2 ^ l → l < f → fix_loop f m (at l o) ≡ fix_up m l o
unfolding fix_loop fix_up
fix_loop-up l zero m o h lt = absurd (omega arith)
fix_loop-up zero (suc f) m o h lt = let e : o ≡ 0 = omega arith in rw e refl
fix_loop-up (suc l) (suc f) m o h lt =
    let pos = one-le-pow l 2 (omega arith) in
    let ne : (at (suc l) o == 0) ≡ false = ne→== _ 0 (omega (arith, pow-suc 2 l)) in
    rw (ne, parent_at l o h, left_at (suc l) o, right_at (suc l) o)
      (fix_loop-up l f _ (o / 2) (half_lt l o h) (omega arith))

-- `fix_parent_buddy_size` at an element below the root is that walk from its parent.
pub fix_parent-up :
    (m : ℕ → ℕ) (l o : ℕ)
    → o < 2 ^ suc l
    → fix_parent_buddy_size m (at (suc l) o) ≡ fix_up m l (o / 2)
unfolding fix_parent_buddy_size
fix_parent-up m l o h =
    let pos = one-le-pow l 2 (omega arith) in
    let ne : (at (suc l) o == 0) ≡ false = ne→== _ 0 (omega (arith, pow-suc 2 l)) in
    rw (ne, parent_at l o h)
      (fix_loop-up l (at (suc l) o) m (o / 2) (half_lt l o h)
        (omega (arith, pow-suc 2 l, level_lt l)))
  where
    level_lt : (k : ℕ) → k < 2 ^ k
    level_lt zero = omega arith
    level_lt (suc k) = omega (arith, level_lt k, pow-suc 2 k)

-- The parent `p` of level `k` agrees with its two halves.
abbrev pub Agrees : (ℕ → ℕ) → ℕ → ℕ → Type 0
Agrees m k p = m (at k p) ≡ combine (m (at (suc k) (2 * p))) (m (at (suc k) (2 * p + 1)))

-- The elements from `o` of level `l` up to the root.
abbrev pub OnPath : ℕ → ℕ → ℕ → ℕ → Type 0
OnPath zero o k p = (k ≡ 0) × (p ≡ o)
OnPath (suc l) o k p = ((k ≡ suc l) × (p ≡ o)) ⊎ OnPath l (o / 2) k p

pub OnPath-start : (l o : ℕ) → OnPath l o l o
OnPath-start zero o = (refl, refl)
OnPath-start (suc l) o = inl (refl, refl)

pub OnPath-level : (l o k p : ℕ) → OnPath l o k p → k ≤ l
OnPath-level zero o k p h = omega arith
OnPath-level (suc l) o k p (inl h) = omega arith
OnPath-level (suc l) o k p (inr h) = omega (arith, OnPath-level l (o / 2) k p h)

-- Elements off the path keep their value.
pub fix_up_off :
    (l : ℕ) (m : ℕ → ℕ) (o k p : ℕ)
    → o < 2 ^ l
    → p < 2 ^ k
    → ¬ (OnPath l o k p)
    → fix_up m l o (at k p) ≡ m (at k p)
unfolding fix_up
fix_up_off zero m o k p ho hp off =
    update_ne m (at zero o) (at k p) _ (λ q. let (a, b) = at_inj k p zero o hp ho q in off (a, b))
fix_up_off (suc l) m o k p ho hp off =
    fix_up_off l _ (o / 2) k p (half_lt l o ho) hp (λ on. off (inr on))
    ∙ update_ne m (at (suc l) o) (at k p) _
        (λ q. let (a, b) = at_inj k p (suc l) o hp ho q in off (inl (a, b)))
