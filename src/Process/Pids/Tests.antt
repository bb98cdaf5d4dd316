-- ===== src/Process/Pids/Tests.antt =====
-- The bitmap at the start, and with all 512 numbers marked.
use atlos.Base.{
  ℕ, ◌/◌, ◌<◌, ◌≡◌, refl, some, ◌==◌, if◌then◌else◌, arith, pos, ltb, bit_below_ones, bit-zero, ◌%◌,
}
use atlos.Bitmap.{Bitmap}
use atlos.Bitmap.Update.{bit_at}
use atlos.Bitmap.Scan.Result.{First}
use atlos.Process.Pids.{alloc_pid, free_pid, pid_map_init}
use atlos.Process.Pids.Fresh.{
  IsPidMap, pid_map_init-IsPidMap, alloc_pid-smallest, alloc_pid-repeats,
}
use atlos.Process.Pids.Reuse.{free-alloc}

abbrev all_marked : Bitmap
all_marked = record { len = 512; buff = λ a. if ltb a 64 then 0xff else 0 }

all_marked-IsPidMap : IsPidMap all_marked
all_marked-IsPidMap = record {
  len_is = refl;
  rest_clear = λ i ge lt.
      let e : all_marked.buff (i / 8) ≡ 0 = ground (arith, ge) in rw e (bit-zero (i % 8));
}

marks : (i : ℕ) → i < 512 → bit_at all_marked i ≡ 1
marks i h =
    let e : all_marked.buff (i / 8) ≡ 0xff = ground (arith, h) in
    rw e (bit_below_ones 8 (i % 8) (omega arith))

abbrev start : Bitmap
start = pid_map_init (λ a. 0x55)

alloc_pid-smallest_example :
    (q : ℕ) × First start 0 513 q
    × (map' : Bitmap) × (alloc_pid 600 start ≡ some (pos q, map'))
    × IsPidMap map'
    × (q < 512 → (i : ℕ) → bit_at map' i ≡ (if i == q then 1 else bit_at start i))
    × (q ≡ 512 → map' ≡ start)
alloc_pid-smallest_example =
    alloc_pid-smallest start (pid_map_init-IsPidMap (λ a. 0x55)) 600 (omega arith)

alloc_pid-repeats_example : alloc_pid 513 all_marked ≡ some (pos 512, all_marked)
alloc_pid-repeats_example = alloc_pid-repeats all_marked all_marked-IsPidMap 513 (omega arith) marks

free-alloc_run :
    (map' : Bitmap) × (alloc_pid 513 (free_pid all_marked (pos 77)) ≡ some (pos 77, map'))
    × IsPidMap map'
    × ((i : ℕ) → bit_at map' i ≡ (if i == 77 then 1 else bit_at all_marked i))
free-alloc_run =
    free-alloc all_marked all_marked-IsPidMap 77 (omega arith) 513 (omega arith)
      (λ i lt. marks i (omega (arith, lt)))
