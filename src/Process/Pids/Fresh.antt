-- ===== src/Process/Pids/Fresh.antt =====
-- What `alloc_pid` gives. The bitmap has 512 bytes; `bitmap_set` takes its length for bits.
use atlos.Base.{
  ℕ, ◌*◌, ◌/◌, ◌%◌, ◌<◌, ◌≤◌, ◌≡◌, refl, inl, inr, some, ◌==◌, if◌then◌else◌, arith, ap, ◌∙◌,
  ℕ-eq_cases, Option-cases, pos, ℤ, bit, bit-zero,
}
use atlos.Bitmap.{Bitmap, bitmap_set, bitmap_init}
use atlos.Bitmap.Update.{bit_at, set-len, set-bit_at}
use atlos.Bitmap.Scan.First.{first_clear}
use atlos.Bitmap.Scan.Result.{First, first_clear-none, first_clear-some, bitmap_scan_partial-finds}
use atlos.Bitmap.Scan.{bitmap_scan}
use atlos.Str.Move.{memset-filled, filled}
use atlos.Process.Pids.{pid_map_init, alloc_pid}

-- The bitmap as `pid_map_init` leaves it and the other operations keep it: no bit is set from 512 on.
pub record IsPidMap (map : Bitmap) : Type 0 where
  pub len_is : map.len ≡ 512
  pub rest_clear : (i : ℕ) → 512 ≤ i → i < 4096 → bit_at map i ≡ 0

abbrev pub Used : Bitmap → ℕ → Type 0
Used map pid = bit_at map pid ≡ 1

cleared : (buff : ℕ → ℕ) (i : ℕ) → i < 4096 → bit (filled buff 0 0 512 (i / 8)) (i % 8) ≡ 0
cleared buff i h =
    let inside : filled buff 0 0 512 (i / 8) ≡ 0 = ground (arith, h) in rw inside (bit-zero (i % 8))

init_clear : (buff : ℕ → ℕ) (i : ℕ) → i < 4096 → bit_at (pid_map_init buff) i ≡ 0
unfolding pid_map_init bitmap_init
init_clear buff i h = rw (pid_map_init, bitmap_init, memset-filled buff 0 0 512) (cleared buff i h)

pub pid_map_init-IsPidMap : (buff : ℕ → ℕ) → IsPidMap (pid_map_init buff)
unfolding pid_map_init bitmap_init
pid_map_init-IsPidMap buff = record { len_is = refl; rest_clear = λ i _ lt. init_clear buff i lt }

module _ (map : Bitmap) (is : IsPidMap map) where
  smallest : (q : ℕ) × First map 0 513 q
  smallest = elim (Option-cases (first_clear map 513 0)) [
    | inl none_here ↦ absurd (
        omega (
          arith,
          first_clear-none map 513 0 512 none_here (omega arith) (omega arith),
          is.rest_clear 512 (omega arith) (omega arith),
        ))
    | inr (q, here) ↦ (q, first_clear-some map 513 0 q here)
  ]

  marked :
      (q : ℕ)
      → q < 512
      → (bitmap_set map q).0 ≡ pos 0
        × ((i : ℕ) → bit_at (bitmap_set map q).1 i ≡ (if i == q then 1 else bit_at map i))
  marked q h = (set-bit_at map q).0 (omega (arith, h, is.len_is))

  marked-IsPidMap : (q : ℕ) → q < 512 → IsPidMap (bitmap_set map q).1
  marked-IsPidMap q h = record {
    len_is = set-len map q ∙ is.len_is;
    rest_clear = λ i ge lt. (marked q h).1 i ∙ ground (arith, h, ge, is.rest_clear i ge lt);
  }

  -- If no number from 512 on is marked and the rounds are enough, `alloc_pid` does not fail. It
  -- returns the smallest number that is not marked, 512 at most. A number below 512 is marked, and
  -- no other one changes; 512 itself is not. From 512 on, still no number is marked.
  pub alloc_pid-smallest :
      (f : ℕ)
      → 512 < f
      → (q : ℕ) × First map 0 513 q
        × (map' : Bitmap) × (alloc_pid f map ≡ some (pos q, map'))
        × IsPidMap map'
        × (q < 512 → (i : ℕ) → bit_at map' i ≡ (if i == q then 1 else bit_at map i))
        × (q ≡ 512 → map' ≡ map)
  unfolding alloc_pid bitmap_scan
  alloc_pid-smallest f enough =
      let (q, first) = smallest in
      let wide : First map 0 (8 * map.len) q =
        (first.0, omega (arith, first.1, is.len_is), first.2, first.3) in
      let run = bitmap_scan_partial-finds map f 0 q wide (omega (arith, enough, is.len_is)) in
      elim (ℕ-eq_cases q 512) [
        | inl e ↦
            let same : (bitmap_set map q).1 ≡ map =
              ap (λ (r : ℤ × Bitmap). r.1) ((set-bit_at map q).1 (omega (arith, e, is.len_is))) in
            (
              q,
              first,
              map,
              run ∙ ap (λ m. some (pos q, m)) same,
              is,
              (λ lt. absurd (omega (arith, lt, e))),
              (λ _. refl),
            )
        | inr ne ↦
            let low : q < 512 = omega (arith, ne, first.1) in
            (
              q,
              first,
              (bitmap_set map q).1,
              run,
              marked-IsPidMap q low,
              (λ lt. (marked q low).1),
              (λ e. absurd (ne e)),
            )
      ]

  -- If all numbers below 512 are marked, none from there on is, and the rounds are enough, two
  -- processes get the same number: `alloc_pid` returns 512 and changes nothing, each time.
  pub alloc_pid-repeats :
      (f : ℕ)
      → 512 < f
      → ((i : ℕ) → i < 512 → bit_at map i ≡ 1)
      → alloc_pid f map ≡ some (pos 512, map)
  alloc_pid-repeats f enough all =
      let (q, first, map', run, is', low, high) = alloc_pid-smallest f enough in
      elim (ℕ-eq_cases q 512) [
        | inl e ↦ run ∙ ap (λ m. some (pos q, m)) (high e) ∙ ap (λ n. some (pos n, map)) e
        | inr ne ↦ absurd (omega (arith, first.2, all q (omega (arith, ne, first.1))))
      ]
