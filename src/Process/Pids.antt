-- ===== src/Process/Pids.antt =====
-- kern/arinc/process.c: the numbers of the processes, kept in a bitmap of 512 bytes.
pub mod Fresh
pub mod Reuse
mod Tests
use atlos.Base.{ℕ, ◌+◌, ◌*◌, ◌/◌, Option, ℤ, pos, negsuc, ◌^◌, ◌-◌}
use atlos.Bitmap.{Bitmap, bitmap_init, bitmap_remove}
use atlos.Bitmap.Scan.{bitmap_scan}

abbrev pub system_limit_number_of_partitions : ℕ
system_limit_number_of_partitions = 32

abbrev pub system_limit_number_of_processes : ℕ
system_limit_number_of_processes = 128

abbrev pub bmap_buff_sz : ℕ
bmap_buff_sz = system_limit_number_of_partitions * system_limit_number_of_processes / 8

-- `pid_map_init`, with a buffer in place, whose bytes are given.
pub pid_map_init : (ℕ → ℕ) → Bitmap
pid_map_init buff = bitmap_init (record { len = bmap_buff_sz; buff = buff })

-- The first argument bounds the rounds of the search; the warning of a failure is left out.
pub alloc_pid : ℕ → Bitmap → Option (ℤ × Bitmap)
alloc_pid f pid_map = bitmap_scan f pid_map 1

-- A `pid_t` as the `uint32_t` that the call takes.
abbrev pub to_unsigned : ℤ → ℕ
to_unsigned (pos n) = n
to_unsigned (negsuc n) = 2 ^ 32 - 1 - n

pub free_pid : Bitmap → ℤ → Bitmap
free_pid pid_map pid = (bitmap_remove pid_map (to_unsigned pid)).1
