-- ===== src/Buddy/Init.antt =====
-- `buddy_init` builds a tree in which every block is free.
use native.Mathlib.Nat.{pow-suc, one-le-pow, pow-le-pow_right, le_refl}
use native.Mathlib.Decide.{dec_lt}
use atlos.Base.{
  ℕ, zero, suc, ◌+◌, ◌-◌, ◌*◌, ◌/◌, ◌^◌, ◌≤◌, ◌<◌, ◌≡◌, refl, arith, inl, inr, update_self,
  update_ne, ap, sym, ◌∙◌, some, ◌==◌, true, ne→==, ==_refl, ℕ-eq_cases, ltb, lt→ltb,
}
use atlos.Pmm.Pow.{is_pow-true}
use atlos.Buddy.{Buddy, combine, init_loop, buddy_init, size2level}
use atlos.Buddy.Node.{at, at_inj}
use atlos.Buddy.Tree.{IsTree}
use atlos.Buddy.Find.{NoPhantom, size2level_lem}

-- The loop has come to element `c` of level `k`, `n` elements before the end of the tree.
record Reached (d n k c : ℕ) (level_size level_len : ℕ) : Type 0 where
  in_level : c < 2 ^ k
  rest : at k c + n ≡ 2 ^ suc d - 1
  size : 0 < n → level_size ≡ 2 ^ (d - k)
  len : level_len ≡ 2 ^ k

level_le : (d k c n : ℕ) → 0 < n → at k c + n ≡ 2 ^ suc d - 1 → k ≤ d
level_le d k c n pos e = elim (dec_lt d k) [
  | yes lt ↦ absurd (
      omega (
        arith,
        one-le-pow d 2,
        pow-suc 2 d,
        pow-le-pow_right {n = 2} (omega arith) {i = suc d} {j = k} lt,
      ))
  | no ge ↦ omega arith
]

-- Elements before the one that the loop has come to keep their value.
init_before : (n i : ℕ) (m : ℕ → ℕ) (ls ll c x : ℕ) → x < i → init_loop n i m ls ll c x ≡ m x
unfolding init_loop
init_before zero i m ls ll c x lt = refl
init_before (suc n) i m ls ll c x lt =
    init_before n (i + 1) _ _ _ _ x (omega arith) ∙ update_ne m i x ls (omega arith)

init_after :
    (d n k c : ℕ) (m : ℕ → ℕ) (ls ll i : ℕ)
    → Reached d n k c ls ll
    → i ≡ at k c
    → (k' p : ℕ) → p < 2 ^ k'
    → k' ≤ d
    → i ≤ at k' p
    → init_loop n i m ls ll c (at k' p) ≡ 2 ^ (d - k')
unfolding init_loop
init_after d zero k c m ls ll i r e k' p hp kd le = absurd (
    omega (
      arith,
      r.rest,
      pow-suc 2 k',
      pow-suc 2 d,
      one-le-pow k' 2,
      pow-le-pow_right {n = 2} (omega arith) {i = k'} {j = d} kd,
    ))
init_after d (suc n) k c m ls ll i r e k' p hp kd le = elim (ℕ-eq_cases (at k' p) i) [
  | inl same ↦
      let (a, b) = at_inj k' p k c hp r.in_level (same ∙ e) in
      rw same (
        init_before n (i + 1) _ _ _ _ i (omega arith)
        ∙ update_self m i ls
        ∙ r.size (omega arith)
        ∙ ap (λ t. 2 ^ (d - t)) (sym a))
  | inr ne ↦ elim (ℕ-eq_cases (c + 1) ll) [
    | inl turn ↦
        let t : (c + 1 == ll) ≡ true = rw turn (==_refl ll) in
        let rest : at (suc k) 0 + n ≡ 2 ^ suc d - 1 =
          omega (arith, r.rest, r.len, r.in_level, pow-suc 2 k) in
        rw t (
          init_after d n (suc k) 0 _ (ls / 2) (ll * 2) (i + 1)
            (record {
              in_level = one-le-pow (suc k) 2 (omega arith);
              rest = rest;
              size = λ pos. halved (level_le d (suc k) 0 n pos rest);
              len = omega (arith, r.len, pow-suc 2 k);
            })
            (omega (arith, r.len, r.in_level, pow-suc 2 k)) k' p hp kd (omega arith))
    | inr stay ↦ rw (ne→== (c + 1) ll stay) (
        init_after d n k (c + 1) _ ls ll (i + 1)
          (record {
            in_level = omega (arith, r.in_level, r.len);
            rest = omega (arith, r.rest, one-le-pow k 2);
            size = λ pos. r.size (omega arith);
            len = r.len;
          })
          (omega arith) k' p hp kd (omega arith))
  ]
]
  where
    halved : suc k ≤ d → ls / 2 ≡ 2 ^ (d - suc k)
    halved kd' =
        let e' : d - k ≡ suc (d - suc k) = omega arith in
        omega (arith, r.size (omega arith), ap (λ t. 2 ^ t) e', pow-suc 2 (d - suc k))

-- Every block of the built tree is free.
pub init_full :
    (d k p : ℕ)
    → k ≤ d
    → p < 2 ^ k
    → init_loop (2 ^ d * 2 - 1) 0 (λ _. 0) (2 ^ d) 1 0 (at k p) ≡ 2 ^ (d - k)
init_full d k p kd hp =
    init_after d (2 ^ d * 2 - 1) 0 0 (λ _. 0) (2 ^ d) 1 0
      (record {
        in_level = omega arith;
        rest = omega (arith, pow-suc 2 d, one-le-pow d 2);
        size = λ pos. ap (λ t. 2 ^ t) (omega arith);
        len = refl;
      })
      refl k p hp kd (omega arith)

-- The elements of the built tree.
abbrev pub built : ℕ → ℕ → ℕ
built d = init_loop (2 ^ d * 2 - 1) 0 (λ _. 0) (2 ^ d) 1 0

built_agrees :
    (d k p : ℕ)
    → k < d
    → p < 2 ^ k
    → built d (at k p) ≡ combine (built d (at (suc k) (2 * p))) (built d (at (suc k) (2 * p + 1)))
unfolding combine
built_agrees d k p kd hp =
    let e : d - k ≡ suc (d - suc k) = omega arith in
    rw
      (
        init_full d k p (omega arith) hp,
        init_full d (suc k) (2 * p) kd (omega (arith, pow-suc 2 k)),
        init_full d (suc k) (2 * p + 1) kd (omega (arith, pow-suc 2 k)),
        e,
      )
      (ground (arith, pow-suc 2 (d - suc k)))

pub built-IsTree : (d : ℕ) → IsTree d (built d)
built-IsTree d = record {
  fits = λ k p kd hp. (inr (d - k, init_full d k p kd hp), rw (init_full d k p kd hp) (le_refl _));
  node = λ k p kd hp. inl (built_agrees d k p kd hp);
}

pub built-NoPhantom : (d : ℕ) → NoPhantom d (built d)
built-NoPhantom d k p kd hp = inl (init_full d k p (omega arith) hp)

-- `buddy_init` of a pool of `2 ^ d` pages, `d` below 31, builds, before its self-test, a well-formed
-- tree of `d` levels below the root, without phantoms, whose every block, on every level, is free.
pub buddy_init-IsTree :
    (d : ℕ)
    → d < 31
    → (bd : Buddy) × (buddy_init (2 ^ d) ≡ some bd)
      × (bd.level ≡ d)
      × IsTree d bd.elem_size
      × NoPhantom d bd.elem_size
      × ((k p : ℕ) → k ≤ d → p < 2 ^ k → bd.elem_size (at k p) ≡ 2 ^ (d - k))
unfolding buddy_init
buddy_init-IsTree d lt = (
  record { elem_size = built d; size = 2 ^ d; level = size2level (2 ^ d) },
  rw (is_pow-true d (omega arith), some_size, small) refl,
  size2level_lem d (omega arith),
  built-IsTree d,
  built-NoPhantom d,
  init_full d,
)
  where
    some_size : ltb 0 (2 ^ d) ≡ true
    some_size = lt→ltb 0 (2 ^ d) (one-le-pow d 2 (omega arith))

    small : ltb (2 ^ d) (2 ^ 31) ≡ true
    small =
        lt→ltb (2 ^ d) (2 ^ 31)
          (omega (arith, pow-le-pow_right {n = 2} (omega arith) {i = d} {j = 30} (omega arith)))
