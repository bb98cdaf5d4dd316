-- ===== src/Vmm/Fault.antt =====
-- `find_vma` and `do_pgfault` on a well-formed address space.
use atlos.Base.{
  ℕ, suc, ◌+◌, ◌-◌, ◌%◌, ◌^◌, ◌<◌, ◌≤◌, ◌≡◌, ◌≢◌, ◌↔◌, ◌⊎◌, refl, Bool, true, false, ◌||◌, some,
  List, [], ◌∷◌, map, length, has, arith, if◌then◌else◌, ◌==◌, ltb, leb, bit_and, ℤ, pos, negsuc,
  sym, ◌∙◌, ap, Bool-cases, ne→==, inl, inr,
}
use mathlib.Core.Path.{subst}
use atlos.Dlist.{Ptr, null}
use atlos.Dlist.Chain.{IsList}
use atlos.Dlist.Frame.{has-ne}
use atlos.Dlist.Walk.{Answers, traversal-first, first_of}
use atlos.Vmm.{Vmas, list_tag, le2vma, find_vma_func, find_vma, pgfault_check, do_pgfault}

-- The areas are not empty, in order and apart, the first one from `lo` on.
abbrev pub SortedFrom : Vmas → ℕ → List Ptr → Type 0
SortedFrom s lo [] = Unit
SortedFrom s lo (v ∷ vs) =
    (lo ≤ s.st_addr v) × (s.st_addr v < s.ed_addr v) × SortedFrom s (suc (s.ed_addr v)) vs

pub record IsMm (s : Vmas) (mm : Ptr) (vs : List Ptr) : Type 0 where
  pub non_null : mm ≢ null
  pub list : IsList s.links mm (map list_tag vs)
  pub areas : has null vs ≡ false
  pub sorted : SortedFrom s 0 vs

-- The first area that ends at `addr` or behind it, or NULL.
abbrev pub first_area : Vmas → ℕ → List Ptr → Ptr
first_area s addr [] = null
first_area s addr (v ∷ vs) =
    let rest = first_area s addr vs in if leb addr (s.ed_addr v) then v else rest

-- The area reaches from its start up to and with the address of its end.
abbrev pub Covers : Vmas → ℕ → Ptr → Type 0
Covers s addr v = (s.st_addr v ≤ addr) × (addr ≤ s.ed_addr v)

-- The access of the error code is allowed in the area, and not on the guard page of a stack.
abbrev pub Allows : Vmas → ℕ → ℕ → Ptr → Type 0
Allows s error_code addr v =
    ((bit_and (s.flag v) 8 ≡ 0) ⊎ ((s.st_addr v + 4096) % 2 ^ 32 ≤ addr))
    × (((2 ≤ error_code % 4) × (bit_and (s.flag v) 2 ≢ 0))
        ⊎ ((error_code % 4 ≡ 0) × (bit_and (s.flag v) 5 ≢ 0)))

length-map : (vs : List Ptr) → length (map list_tag vs) ≡ length vs
length-map [] = refl
length-map (v ∷ vs) = ap suc (length-map vs)

module _ (s : Vmas) (addr : ℕ) where
  ends_behind : Ptr → Bool
  ends_behind le = leb addr (s.ed_addr (le2vma le))

  first_of-area :
      (vs : List Ptr)
      → (let le = first_of ends_behind (map list_tag vs) in if le == null then null else le2vma le)
        ≡ first_area s addr vs
  unfolding ends_behind
  first_of-area [] = refl
  first_of-area (v ∷ vs) =
      let same : v + 16 - 16 ≡ v = omega arith in rw same (ground (arith, first_of-area vs))

  answers :
      (vs : List Ptr) → 0 < addr → Answers (find_vma_func s addr) ends_behind (map list_tag vs)
  unfolding find_vma_func ends_behind
  answers [] pos_addr = tt
  answers (v ∷ vs) pos_addr = (ground arith, answers vs pos_addr)

  pub find_vma-first :
      (fuel : ℕ) (mm : Ptr) (vs : List Ptr)
      → 0 < addr
      → IsMm s mm vs
      → length vs < fuel
      → find_vma fuel mm addr s ≡ some (first_area s addr vs)
  unfolding find_vma
  find_vma-first fuel mm vs pos_addr ok enough =
      let found =
        traversal-first s.links mm fuel (map list_tag vs) (find_vma_func s addr) ends_behind
          (answers vs pos_addr) ok.list (rw (length-map vs) enough) in
      let there : (mm == null) ≡ false = ne→== mm null ok.non_null in
      rw (find_vma, there, found) (ap some (first_of-area vs))

  sorted_above :
      (lo : ℕ) (vs : List Ptr) (v : Ptr) → SortedFrom s lo vs → has v vs ≡ true → lo ≤ s.st_addr v
  sorted_above lo [] v h i = absurd (ground arith)
  sorted_above lo (u ∷ vs) v h i = ground (arith, sorted_above (suc (s.ed_addr u)) vs v h.2)

  covered-first :
      (lo : ℕ) (vs : List Ptr) (v : Ptr)
      → SortedFrom s lo vs
      → has v vs ≡ true
      → Covers s addr v
      → first_area s addr vs ≡ v
  covered-first lo [] v h i c = absurd (ground arith)
  covered-first lo (u ∷ vs) v h i c =
      ground (
        arith,
        sorted_above (suc (s.ed_addr u)) vs v h.2,
        covered-first (suc (s.ed_addr u)) vs v h.2,
      )

  first_area-has :
      (vs : List Ptr)
      → first_area s addr vs ≢ null
      → (has (first_area s addr vs) vs ≡ true) × (addr ≤ s.ed_addr (first_area s addr vs))
  first_area-has [] ne = absurd (ne refl)
  first_area-has (v ∷ vs) ne = elim (Bool-cases (leb addr (s.ed_addr v))) [
    | inl e ↦
        let here : first_area s addr (v ∷ vs) ≡ v = ground arith in
        rw here (ground arith, ground arith)
    | inr e ↦
        let there : first_area s addr (v ∷ vs) ≡ first_area s addr vs = ground arith in
        let rest = first_area-has vs (λ z. ne (there ∙ z)) in
        subst (λ w. (has w (v ∷ vs) ≡ true) × (addr ≤ s.ed_addr w)) (sym there)
          (ground (arith, rest.0), rest.1)
  ]

  check-Allows :
      (error_code : ℕ) (v : Ptr)
      → (pgfault_check s v error_code addr ≡ pos 0) ↔ Allows s error_code addr v
  unfolding pgfault_check
  check-Allows error_code v = (λ e. (ground arith, ground arith), λ a. ground arith)

  outcome : ℕ → Ptr → ℤ
  outcome error_code v =
      if (v == null) || ltb addr (s.st_addr v) then negsuc 0 else pgfault_check s v error_code addr

  outcome_zero :
      (error_code : ℕ) (v : Ptr)
      → outcome error_code v ≡ pos 0
      → (v ≢ null) × (s.st_addr v ≤ addr) × (pgfault_check s v error_code addr ≡ pos 0)
  unfolding outcome
  outcome_zero error_code v e = (ground arith, ground arith, ground arith)

  outcome_check :
      (error_code : ℕ) (v : Ptr)
      → v ≢ null
      → s.st_addr v ≤ addr
      → outcome error_code v ≡ pgfault_check s v error_code addr
  unfolding outcome
  outcome_check error_code v ne le = ground arith

  -- At an address other than 0, in an address space whose areas are not empty, in order and apart,
  -- and given a round more than there are areas, `do_pgfault` ends, and returns 0 exactly if there is
  -- an area that covers the address, its end included, and allows the access.
  pub do_pgfault-Allows :
      (fuel : ℕ) (mm : Ptr) (error_code : ℕ) (vs : List Ptr)
      → 0 < addr
      → IsMm s mm vs
      → length vs < fuel
      → (r : ℤ) × (do_pgfault fuel mm error_code addr s ≡ some r)
        × ((r ≡ pos 0)
            ↔ ((v : Ptr) × (has v vs ≡ true) × Covers s addr v × Allows s error_code addr v))
  unfolding do_pgfault outcome
  do_pgfault-Allows fuel mm error_code vs pos_addr ok enough =
      let v = first_area s addr vs in
      (
        outcome error_code v,
        rw (do_pgfault, find_vma-first fuel mm vs pos_addr ok enough) refl,
        (
          λ z.
              let ok' = outcome_zero error_code v z in
              let found = first_area-has vs ok'.0 in
              (v, found.0, (ok'.1, found.1), (check-Allows error_code v).0 ok'.2),
          λ (w, i, covers, allows).
              let first = covered-first 0 vs w ok.sorted i covers in
              rw (first, outcome_check error_code w (has-ne w null vs i ok.areas) covers.0)
                ((check-Allows error_code w).1 allows),
        ),
      )
