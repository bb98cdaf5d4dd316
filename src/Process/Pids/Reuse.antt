-- ===== src/Process/Pids/Reuse.antt =====
-- `free_pid`, and `alloc_pid` after it.
use atlos.Base.{ℕ, ◌<◌, ◌≡◌, some, ◌==◌, if◌then◌else◌, arith, ap, ◌∙◌, pos}
use atlos.Bitmap.{Bitmap}
use atlos.Bitmap.Update.{bit_at, remove-len, remove-bit_at}
use atlos.Bitmap.Scan.Result.{First, First-unique}
use atlos.Process.Pids.{alloc_pid, free_pid}
use atlos.Process.Pids.Fresh.{IsPidMap, alloc_pid-smallest}

module _ (map : Bitmap) (is : IsPidMap map) (pid : ℕ) (low : pid < 512) where
  freed : (i : ℕ) → bit_at (free_pid map (pos pid)) i ≡ (if i == pid then 0 else bit_at map i)
  unfolding free_pid
  freed = ((remove-bit_at map pid).0 (omega (arith, low, is.len_is))).1

  pub free_pid-IsPidMap : IsPidMap (free_pid map (pos pid))
  unfolding free_pid
  free_pid-IsPidMap = record {
    len_is = remove-len map pid ∙ is.len_is;
    rest_clear = λ i ge lt. freed i ∙ ground (arith, low, ge, is.rest_clear i ge lt);
  }

  -- If no number from 512 on is marked, the rounds are enough, and all numbers below a number under
  -- 512 are marked, `alloc_pid` after its `free_pid` returns that number again, and marks it alone.
  pub free-alloc :
      (f : ℕ)
      → 512 < f
      → ((i : ℕ) → i < pid → bit_at map i ≡ 1)
      → (map' : Bitmap) × (alloc_pid f (free_pid map (pos pid)) ≡ some (pos pid, map'))
        × IsPidMap map'
        × ((i : ℕ) → bit_at map' i ≡ (if i == pid then 1 else bit_at map i))
  free-alloc f enough below =
      let (q, first, map', run, is', marks, same) =
        alloc_pid-smallest (free_pid map (pos pid)) free_pid-IsPidMap f enough in
      let here : First (free_pid map (pos pid)) 0 513 pid = (
        omega arith,
        omega (arith, low),
        freed pid ∙ ground arith,
        λ i ge lt. freed i ∙ ground (arith, lt, below i lt),
      ) in
      let e : q ≡ pid = First-unique (free_pid map (pos pid)) 0 513 q pid first here in
      (
        map',
        run ∙ ap (λ n. some (pos n, map')) e,
        is',
        λ i. marks (omega (arith, e, low)) i ∙ rw (e) (ground (arith, freed i)),
      )
