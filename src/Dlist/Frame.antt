-- ===== src/Dlist/Frame.antt =====
-- A segment survives every change that spares the links it is made of.
use atlos.Base.{◌≡◌, ◌≢◌, true, false, List, [], ◌∷◌, ◌++◌, arith, has, Distinct, has-append, ap}
use atlos.Dlist.{Ptr, null, Heap, tail}
use mathlib.Core.List.{append_assoc}
use atlos.Dlist.Chain.{
  Seg, IsRing, Seg-first, Seg-split, Distinct-apart, Distinct-left, Distinct-right,
}

-- `g` has the `next` links of `h` at `xs`, and the `prev` links of `h` at `xs` and `q` but for `p`.
pub record Spares (h g : Heap) (p : Ptr) (xs : List Ptr) (q : Ptr) : Type 0 where
  pub nexts : (a : Ptr) → has a xs ≡ true → g.next a ≡ h.next a
  pub prevs : (a : Ptr) → has a (xs ++ q ∷ []) ≡ true → a ≢ p → g.prev a ≡ h.prev a

pub frame :
    (h g : Heap) (xs : List Ptr) (p q : Ptr)
    → Distinct (xs ++ q ∷ [])
    → Seg h p xs q
    → Spares h g p xs q
    → Seg g p xs q
frame h g [] p q d s same = s
frame h g (x ∷ xs) p q d s same =
    let m = Seg-first h xs (h.next x) q s.2 in
    let e : g.next x ≡ h.next x = ground (arith, same.nexts x) in
    (
      s.0,
      rw e (ground (arith, same.prevs (h.next x))),
      rw e (
          frame h g xs (h.next x) q d.1 s.2 (record {
            nexts = λ a i. same.nexts a (ground arith);
            prevs = λ a i ne. same.prevs a (ground arith) (ground arith);
          })),
    )

pub has-ne : (a b : Ptr) (xs : List Ptr) → has a xs ≡ true → has b xs ≡ false → a ≢ b
has-ne a b xs m out e = ground (arith, ap (λ (t : Ptr). has t xs) e)

has-ne_of_apart : (a e : Ptr) (us ws : List Ptr) → Distinct (us ++ e ∷ ws) → has a us ≡ true → a ≢ e
has-ne_of_apart a e us ws d m q = ground (arith, Distinct-apart a us (e ∷ ws) d m)

pub has-middle : (e : Ptr) (us ws : List Ptr) → has e (us ++ e ∷ ws) ≡ true
has-middle e us ws = ground (arith, has-append e us (e ∷ ws))

-- A ring cut at its element `e`: what comes before, what comes after, and how they are apart.
pub record Cut (h : Heap) (l : Ptr) (us : List Ptr) (e : Ptr) (vs : List Ptr) : Type 0 where
  pub front : Seg h l us e
  pub linked : h.prev (h.next e) ≡ e
  pub back : Seg h (h.next e) vs (tail l)
  pub all : Distinct (us ++ e ∷ (vs ++ tail l ∷ []))
  pub before : Distinct (us ++ e ∷ [])
  pub after : Distinct (e ∷ (vs ++ tail l ∷ []))
  pub sides : (a : Ptr) → has a (us ++ e ∷ []) ≡ true → has a (vs ++ tail l ∷ []) ≡ false
  pub e_not_before : (a : Ptr) → has a us ≡ true → a ≢ e
  pub next_after : has (h.next e) (vs ++ tail l ∷ []) ≡ true
  pub ne_null : l ≢ null
  pub e_ne_null : e ≢ null
  pub next_ne_null : h.next e ≢ null

pub cut :
    (h : Heap) (l : Ptr) (us : List Ptr) (e : Ptr) (vs : List Ptr)
    → IsRing h l (us ++ e ∷ vs)
    → Cut h l us e vs
cut h l us e vs ring =
    let (r, front, (start, linked, back)) = Seg-split h us (e ∷ vs) l (tail l) ring.chain in
    let ws = vs ++ tail l ∷ [] in
    let all : Distinct (us ++ e ∷ ws) =
      rw (append_assoc us (e ∷ vs) (tail l ∷ [])) at ring.distinct in
    let nn : has null (us ++ e ∷ ws) ≡ false =
      rw (append_assoc us (e ∷ vs) (tail l ∷ [])) at ring.non_null in
    let cut_all : Distinct ((us ++ e ∷ []) ++ ws) = rw (append_assoc us (e ∷ []) ws) all in
    let first = Seg-first h (us ++ e ∷ vs) l (tail l) ring.chain in
    let next_after = Seg-first h vs (h.next e) (tail l) back in
    record {
      front = rw start at front;
      linked = linked;
      back = back;
      all = all;
      before = Distinct-left (us ++ e ∷ []) ws cut_all;
      after = Distinct-right us (e ∷ ws) all;
      sides = λ a m. Distinct-apart a (us ++ e ∷ []) ws cut_all m;
      e_not_before = λ a m. has-ne_of_apart a e us ws all m;
      next_after = next_after;
      ne_null = has-ne l null _ first ring.non_null;
      e_ne_null = has-ne e null (us ++ e ∷ ws) (has-middle e us ws) nn;
      next_ne_null =
          has-ne (h.next e) null (us ++ e ∷ ws) (ground (arith, has-append (h.next e) us (e ∷ ws)))
            nn;
    }
