-- ===== src/Buddy/Change.antt =====
-- Handing out a block and taking it back keep the tree's invariant.
use native.Mathlib.Nat.{pow-suc, one-le-pow, le_refl}
use atlos.Base.{
  ℕ, zero, suc, ◌+◌, ◌-◌, ◌*◌, ◌/◌, ◌^◌, ◌≤◌, ◌<◌, ◌≡◌, refl, ◌≢◌, arith, ◌⊎◌, inl, inr, update,
  update_self, update_ne, ℕ-eq_cases, ap, sym, ◌∙◌,
}
use atlos.Buddy.{combine, fix_parent_buddy_size}
use atlos.Buddy.Node.{at, at_inj, at_level, half_lt, child_lt}
use atlos.Buddy.Fix.{fix_parent-up, Agrees, OnPath, OnPath-start}
use atlos.Buddy.Tree.{
  Held, Fits, IsTree, fix_up-node, update-Everywhere, fix_up-Everywhere, combine-Fits,
}

-- Both halves of the parent `p` of level `k` are full.
abbrev pub FullHalves : ℕ → (ℕ → ℕ) → ℕ → ℕ → Type 0
FullHalves d m k p =
    (m (at (suc k) (2 * p)) ≡ 2 ^ (d - suc k)) × (m (at (suc k) (2 * p + 1)) ≡ 2 ^ (d - suc k))

pub combine_full :
    (a b n : ℕ) → a ≤ 2 ^ n → b ≤ 2 ^ n → combine a b ≡ 2 ^ suc n → (a ≡ 2 ^ n) × (b ≡ 2 ^ n)
unfolding combine
combine_full a b n ha hb e = let pos = one-le-pow n 2 (omega arith) in ground (arith, pow-suc 2 n)

-- A full parent has full halves.
pub full-FullHalves :
    (d : ℕ) (m : ℕ → ℕ) (k p : ℕ)
    → IsTree d m
    → k < d
    → p < 2 ^ k
    → m (at k p) ≡ 2 ^ (d - k)
    → FullHalves d m k p
full-FullHalves d m k p t kd hp e =
    let n : d - k ≡ suc (d - suc k) = omega arith in
    let fl = t.fits (suc k) (2 * p) kd (omega (arith, pow-suc 2 k)) in
    let fr = t.fits (suc k) (2 * p + 1) kd (child_lt k p 1 hp (omega arith)) in
    elim (t.node k p kd hp) [
      | inl g ↦ combine_full _ _ (d - suc k) fl.1 fr.1 (sym g ∙ e ∙ ap (λ t. 2 ^ t) n)
      | inr h ↦ (h.1, h.2)
    ]

-- One write, and the walk up from it: what every allocation and release does to the elements.
unfoldable pub changed : (ℕ → ℕ) → ℕ → ℕ → ℕ → ℕ → ℕ
changed m l o v = fix_parent_buddy_size (update m (at l o) v) (at l o)

module _ (d : ℕ) (m : ℕ → ℕ) (l o v : ℕ) where
  -- A write at an element leaves every other parent's relation alone, but for its own parent's.
  update-node :
      (k p : ℕ)
      → IsTree d m
      → k < d
      → p < 2 ^ k
      → o < 2 ^ l
      → at k p ≢ at l o
      → at (suc k) (2 * p) ≢ at l o
      → at (suc k) (2 * p + 1) ≢ at l o
      → Agrees (update m (at l o) v) k p ⊎ Held (update m (at l o) v) k p (d - suc k)
  update-node k p t kd hp ho n₀ n₁ n₂ =
      rw
        (
          update_ne m (at l o) (at k p) v n₀,
          update_ne m (at l o) (at (suc k) (2 * p)) v n₁,
          update_ne m (at l o) (at (suc k) (2 * p + 1)) v n₂,
        )
        (t.node k p kd hp)

  -- The new value fits its place: it agrees with the halves, or it is 0 above full halves.
  abbrev pub Suits : Type 0
  Suits =
      Fits d l v
      × (l < d
          → (v ≡ combine (m (at (suc l) (2 * o))) (m (at (suc l) (2 * o + 1))))
            ⊎ ((v ≡ 0)
                × (m (at (suc l) (2 * o)) ≡ 2 ^ (d - suc l))
                × (m (at (suc l) (2 * o + 1)) ≡ 2 ^ (d - suc l))))

  self-node :
      o < 2 ^ l
      → l < d
      → Suits
      → Agrees (update m (at l o) v) l o ⊎ Held (update m (at l o) v) l o (d - suc l)
  self-node ho kd suits =
      rw
        (
          update_self m (at l o) v,
          update_ne m (at l o) (at (suc l) (2 * o)) v (apart (2 * o) (omega (arith, pow-suc 2 l))),
          update_ne m (at l o) (at (suc l) (2 * o + 1)) v
              (apart (2 * o + 1) (child_lt l o 1 ho (omega arith))),
        )
        (suits.1 kd)
    where
      apart : (q : ℕ) → q < 2 ^ suc l → at (suc l) q ≢ at l o
      apart q hq e = omega (arith, at_level (suc l) q l o hq ho e)

-- A write of a suitable value, with the walk up from it, keeps the tree.
pub changed-IsTree :
    (d : ℕ) (m : ℕ → ℕ) (l o v : ℕ)
    → IsTree d m
    → l ≤ d
    → o < 2 ^ l
    → Suits d m l o v
    → IsTree d (changed m l o v)
unfolding changed fix_parent_buddy_size
changed-IsTree d m zero o v t ld ho suits =
    let root : o ≡ 0 = omega arith in
    rw root (record {
      fits = update-Everywhere (Fits d) d m zero 0 v (omega arith) suits.0 t.fits;
      node = λ k p kd hp. root-node k p kd hp;
    })
  where
    root-node :
        (k p : ℕ)
        → k < d
        → p < 2 ^ k
        → Agrees (update m (at zero 0) v) k p ⊎ Held (update m (at zero 0) v) k p (d - suc k)
    root-node k p kd hp = elim (ℕ-eq_cases (at k p) (at zero 0)) [
      | inl e ↦
          let (a, b) = at_inj k p zero 0 hp (omega arith) e in
          let root : o ≡ 0 = omega arith in
          rw (a, b) (self-node d m zero 0 v (omega arith) (omega arith) (rw root at suits))
      | inr ne ↦
          update-node d m zero 0 v k p t kd hp (omega arith) ne
            (λ e. omega (
              arith,
              (at_inj (suc k) (2 * p) zero 0 (omega (arith, pow-suc 2 k)) (omega arith) e).0,
            ))
            (λ e. omega (
              arith,
              (at_inj (suc k) (2 * p + 1) zero 0 (child_lt k p 1 hp (omega arith)) (omega arith)
                  e).0,
            ))
    ]
changed-IsTree d m (suc l) o v t ld ho suits =
    rw (fix_parent-up (update m (at (suc l) o) v) l o ho) (record {
      fits =
          fix_up-Everywhere (Fits d) d (combine-Fits d) l m₁ (o / 2) ld half
            (update-Everywhere (Fits d) d m (suc l) o v ho suits.0 t.fits);
      node = λ k p kd hp. fix_up-node l m₁ (o / 2) k p (d - suc k) half hp (rel k p kd hp);
    })
  where
    m₁ : ℕ → ℕ
    m₁ = update m (at (suc l) o) v

    half : o / 2 < 2 ^ l
    half = half_lt l o ho

    above :
        (k p q : ℕ) → q < 2 ^ suc k → p ≡ q / 2 → at (suc k) q ≡ at (suc l) o → OnPath l (o / 2) k p
    above k p q hq e same =
        let (a, b) = at_inj (suc k) q (suc l) o hq ho same in
        let a' : k ≡ l = omega arith in
        let b' : p ≡ o / 2 = omega arith in rw (a', b') (OnPath-start l (o / 2))

    rel :
        (k p : ℕ)
        → k < d
        → p < 2 ^ k
        → Agrees m₁ k p ⊎ Held m₁ k p (d - suc k) ⊎ OnPath l (o / 2) k p
    rel k p kd hp = elim (ℕ-eq_cases (at k p) (at (suc l) o)) [
      | inl e ↦
          let (a, b) = at_inj k p (suc l) o hp ho e in
          rw (a, b)
            (elim (self-node d m (suc l) o v ho (omega arith) suits) [
              | inl g ↦ inl g
              | inr h ↦ inr (inl h)
            ])
      | inr n₀ ↦ elim (ℕ-eq_cases (at (suc k) (2 * p)) (at (suc l) o)) [
        | inl e ↦ inr (inr (above k p (2 * p) (omega (arith, pow-suc 2 k)) (omega arith) e))
        | inr n₁ ↦ elim (ℕ-eq_cases (at (suc k) (2 * p + 1)) (at (suc l) o)) [
          | inl e ↦
              inr (inr (above k p (2 * p + 1) (child_lt k p 1 hp (omega arith)) (omega arith) e))
          | inr n₂ ↦ elim (update-node d m (suc l) o v k p t kd hp ho n₀ n₁ n₂) [
            | inl g ↦ inl g
            | inr h ↦ inr (inl h)
          ]
        ]
      ]
    ]

-- Handing out a full block, of any level, keeps the tree.
pub take-IsTree :
    (d : ℕ) (m : ℕ → ℕ) (l o : ℕ)
    → IsTree d m
    → l ≤ d
    → o < 2 ^ l
    → m (at l o) ≡ 2 ^ (d - l)
    → IsTree d (changed m l o 0)
take-IsTree d m l o t ld ho full = changed-IsTree d m l o 0 t ld ho (
  (inl refl, omega arith),
  λ lt. let h = full-FullHalves d m l o t lt ho full in inr (refl, h.0, h.1),
)

-- Taking back a block that was handed out whole keeps the tree.
pub give-IsTree :
    (d : ℕ) (m : ℕ → ℕ) (l o : ℕ)
    → IsTree d m
    → l ≤ d
    → o < 2 ^ l
    → (l < d → FullHalves d m l o)
    → IsTree d (changed m l o (2 ^ (d - l)))
unfolding combine
give-IsTree d m l o t ld ho halves = changed-IsTree d m l o (2 ^ (d - l)) t ld ho (
  (inr (d - l, refl), le_refl _),
  λ lt.
      let h = halves lt in
      let n : d - l ≡ suc (d - suc l) = omega arith in
      inl (rw (h.0, h.1, n) (ground (arith, pow-suc 2 (d - suc l)))),
)
