-- ===== src/Buddy/Tree.antt =====
-- The invariant of the tree: sizes are bounded by the level, and every parent either agrees with its
-- two halves or is handed out whole, at 0, with both halves full below it.
use native.Mathlib.Nat.{pow-suc}
use mathlib.Core.Path.{subst}
use atlos.Base.{
  ℕ, zero, suc, ◌+◌, ◌-◌, ◌*◌, ◌/◌, ◌^◌, ◌≤◌, ◌<◌, ◌≡◌, ◌≢◌, arith, ◌⊎◌, inl, inr, update,
  update_self, update_ne, ℕ-eq_cases, Bool-cases, ltb, ne→==,
}
use atlos.Buddy.{combine}
use atlos.Buddy.Node.{at, at_inj, at_level, half_lt, child_lt}
use atlos.Buddy.Fix.{fix_up, Agrees, OnPath, OnPath-start, OnPath-level, fix_up_off}

-- The parent `p` of level `k` is handed out as a whole; its halves have `2 ^ n` pages each.
abbrev pub Held : (ℕ → ℕ) → ℕ → ℕ → ℕ → Type 0
Held m k p n =
    (m (at k p) ≡ 0) × (m (at (suc k) (2 * p)) ≡ 2 ^ n) × (m (at (suc k) (2 * p + 1)) ≡ 2 ^ n)

-- A size in the tree is 0 or a power of two.
abbrev pub IsSize : ℕ → Type 0
IsSize s = (s ≡ 0) ⊎ ((e : ℕ) × (s ≡ 2 ^ e))

-- What holds of every size, by its level.
abbrev pub Everywhere : (ℕ → ℕ → Type 0) → ℕ → (ℕ → ℕ) → Type 0
Everywhere P d m = (k p : ℕ) → k ≤ d → p < 2 ^ k → P k (m (at k p))

-- A size of level `k` of a tree of depth `d` is 0 or a power of two, within the level's block.
abbrev pub Fits : ℕ → ℕ → ℕ → Type 0
Fits d k s = IsSize s × (s ≤ 2 ^ (d - k))

pub record IsTree (d : ℕ) (m : ℕ → ℕ) : Type 0 where
  pub fits : Everywhere (Fits d) d m
  pub node : (k p : ℕ) → k < d → p < 2 ^ k → Agrees m k p ⊎ Held m k p (d - suc k)

pub combine-le : (a b n : ℕ) → a ≤ 2 ^ n → b ≤ 2 ^ n → combine a b ≤ 2 ^ suc n
unfolding combine
combine-le a b n ha hb = ground (arith, pow-suc 2 n)

pub combine-IsSize : (a b : ℕ) → IsSize a → IsSize b → IsSize (combine a b)
unfolding combine
combine-IsSize a b sa sb = elim (ℕ-eq_cases a b) [
  | inl e ↦ elim sa [
    | inl z ↦ inl (ground arith)
    | inr (x, q) ↦ inr (suc x, ground (arith, pow-suc 2 x))
  ]
  | inr ne ↦ elim (Bool-cases (ltb b a)) [
    | inl lt ↦ rw (ne→== a b ne, lt) sa
    | inr ge ↦ rw (ne→== a b ne, ge) sb
  ]
]

pub OnPath-parent : (l o k q : ℕ) → OnPath l o (suc k) q → OnPath l o k (q / 2)
OnPath-parent zero o k q h = absurd (omega arith)
OnPath-parent (suc l) o k q (inl (a, b)) =
    let e : k ≡ l = omega arith in rw (e, b) (inr (OnPath-start l (o / 2)))
OnPath-parent (suc l) o k q (inr h) = inr (OnPath-parent l (o / 2) k q h)

pub OnPath-dec : (l o k p : ℕ) → OnPath l o k p ⊎ ¬ (OnPath l o k p)
OnPath-dec zero o k p = elim (ℕ-eq_cases k 0) [
  | inl a ↦ elim (ℕ-eq_cases p o) [ inl b ↦ inl (a, b) | inr n ↦ inr (λ h. n h.1) ]
  | inr n ↦ inr (λ h. n h.0)
]
OnPath-dec (suc l) o k p = elim (OnPath-dec l (o / 2) k p) [
  | inl on ↦ inl (inr on)
  | inr off ↦ elim (ℕ-eq_cases k (suc l)) [
    | inl a ↦ elim (ℕ-eq_cases p o) [
      | inl b ↦ inl (inl (a, b))
      | inr n ↦ inr (elim [ inl h ↦ n h.1 | inr h ↦ off h ])
    ]
    | inr n ↦ inr (elim [ inl h ↦ n h.0 | inr h ↦ off h ])
  ]
]

set-Agrees :
    (m : ℕ → ℕ) (l o : ℕ)
    → o < 2 ^ l
    → Agrees (update m (at l o) (combine (m (at (suc l) (2 * o))) (m (at (suc l) (2 * o + 1))))) l o
set-Agrees m l o h = rw (
  update_self m (at l o) (combine (m (at (suc l) (2 * o))) (m (at (suc l) (2 * o + 1)))),
  update_ne m (at l o) (at (suc l) (2 * o))
      (combine (m (at (suc l) (2 * o))) (m (at (suc l) (2 * o + 1))))
      (apart (2 * o) (omega (arith, pow-suc 2 l))),
  update_ne m (at l o) (at (suc l) (2 * o + 1))
      (combine (m (at (suc l) (2 * o))) (m (at (suc l) (2 * o + 1))))
      (apart (2 * o + 1) (child_lt l o 1 h (omega arith))),
)
  where
    apart : (q : ℕ) → q < 2 ^ suc l → at (suc l) q ≢ at l o
    apart q hq e = omega (arith, at_level (suc l) q l o hq h e)

-- The walk from level `l` leaves all deeper levels alone.
pub fix_up_below :
    (l : ℕ) (m : ℕ → ℕ) (o k p : ℕ)
    → o < 2 ^ l
    → p < 2 ^ k
    → l < k
    → fix_up m l o (at k p) ≡ m (at k p)
fix_up_below l m o k p ho hp lt =
    fix_up_off l m o k p ho hp (λ on. omega (arith, OnPath-level l o k p on))

-- After the walk every parent on the path agrees with its halves.
pub fix_up-Agrees :
    (l : ℕ) (m : ℕ → ℕ) (o k p : ℕ) → o < 2 ^ l → OnPath l o k p → Agrees (fix_up m l o) k p
unfolding fix_up
fix_up-Agrees zero m o k p ho (a, b) = rw (a, b) (set-Agrees m zero o ho)
fix_up-Agrees (suc l) m o k p ho (inl (a, b)) =
    let half = half_lt l o ho in
    let m₁ =
      update m (at (suc l) o)
        (combine (m (at (suc (suc l)) (2 * o))) (m (at (suc (suc l)) (2 * o + 1)))) in
    rw
      (
        a,
        b,
        fix_up_below l m₁ (o / 2) (suc l) o half ho (omega arith),
        fix_up_below l m₁ (o / 2) (suc (suc l)) (2 * o) half (omega (arith, pow-suc 2 (suc l)))
            (omega arith),
        fix_up_below l m₁ (o / 2) (suc (suc l)) (2 * o + 1) half
            (child_lt (suc l) o 1 ho (omega arith)) (omega arith),
      )
      (set-Agrees m (suc l) o ho)
fix_up-Agrees (suc l) m o k p ho (inr on) = fix_up-Agrees l _ (o / 2) k p (half_lt l o ho) on

-- A parent off the path keeps its relation to its halves, if it keeps its halves.
pub fix_up-node :
    (l : ℕ) (m : ℕ → ℕ) (o k p n : ℕ)
    → o < 2 ^ l
    → p < 2 ^ k
    → Agrees m k p ⊎ Held m k p n ⊎ OnPath l o k p
    → Agrees (fix_up m l o) k p ⊎ Held (fix_up m l o) k p n
fix_up-node l m o k p n ho hp rel = elim (OnPath-dec l o k p) [
  | inl on ↦ inl (fix_up-Agrees l m o k p ho on)
  | inr off ↦
      let self = fix_up_off l m o k p ho hp off in
      let left =
        fix_up_off l m o (suc k) (2 * p) ho (omega (arith, pow-suc 2 k))
          (λ on. off (subst (OnPath l o k) (omega arith) (OnPath-parent l o k (2 * p) on))) in
      let right =
        fix_up_off l m o (suc k) (2 * p + 1) ho (omega (arith, pow-suc 2 k))
          (λ on. off (subst (OnPath l o k) (omega arith) (OnPath-parent l o k (2 * p + 1) on))) in
      elim rel [
        | inl g ↦ inl (rw (self, left, right) g)
        | inr (inl h) ↦ inr (rw (self, left, right) h)
        | inr (inr on) ↦ absurd (off on)
      ]
]

pub update-Everywhere :
    (P : ℕ → ℕ → Type 0) (d : ℕ) (m : ℕ → ℕ) (l o v : ℕ)
    → o < 2 ^ l
    → P l v
    → Everywhere P d m
    → Everywhere P d (update m (at l o) v)
update-Everywhere P d m l o v ho new all k p kd hp = elim (ℕ-eq_cases (at k p) (at l o)) [
  | inl e ↦ let (a, b) = at_inj k p l o hp ho e in rw (a, b, update_self m (at l o) v) new
  | inr ne ↦ rw (update_ne m (at l o) (at k p) v ne) (all k p kd hp)
]

-- What passes from two halves to their parent holds everywhere after the walk, if before.
pub fix_up-Everywhere :
    (P : ℕ → ℕ → Type 0) (d : ℕ)
    → ((k a b : ℕ) → k < d → P (suc k) a → P (suc k) b → P k (combine a b))
    → (l : ℕ) (m : ℕ → ℕ) (o : ℕ) → l < d
    → o < 2 ^ l
    → Everywhere P d m
    → Everywhere P d (fix_up m l o)
unfolding fix_up
fix_up-Everywhere P d up zero m o ll ho all =
    update-Everywhere P d m zero o _ ho
      (up zero _ _ ll (all 1 (2 * o) ll (omega (arith, pow-suc 2 0)))
        (all 1 (2 * o + 1) ll (child_lt zero o 1 ho (omega arith))))
      all
fix_up-Everywhere P d up (suc l) m o ll ho all =
    fix_up-Everywhere P d up l _ (o / 2) (omega arith) (half_lt l o ho) (
      update-Everywhere P d m (suc l) o _ ho
        (up (suc l) _ _ ll (all (suc (suc l)) (2 * o) ll (omega (arith, pow-suc 2 (suc l))))
          (all (suc (suc l)) (2 * o + 1) ll (child_lt (suc l) o 1 ho (omega arith))))
        all)

pub combine-Fits :
    (d k a b : ℕ) → k < d → Fits d (suc k) a → Fits d (suc k) b → Fits d k (combine a b)
combine-Fits d k a b kd fa fb =
    let e : d - k ≡ suc (d - suc k) = omega arith in
    (combine-IsSize a b fa.0 fb.0, rw e (combine-le a b (d - suc k) fa.1 fb.1))
