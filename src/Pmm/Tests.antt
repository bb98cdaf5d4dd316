-- ===== src/Pmm/Tests.antt =====
-- The size and address arithmetic at concrete words, and the theorems there.
use atlos.Base.{◌+◌, ◌*◌, ◌/◌, ◌^◌, ◌≡◌, refl, arith}
use atlos.Pmm.{
  next_pow_of_2, round_down, round_up, page2kvaddr, kvaddr2page, page2kpaddr, kpaddr2page, pde_ptr,
  pte_ptr,
}
use atlos.Pmm.Pow.{IsNextPow, next_pow_of_2-IsNextPow}
use atlos.Pmm.Round.{
  IsFloor, IsCeil, round_down-IsFloor, round_up-IsCeil, kvaddr2page-page2kvaddr, page_table_entries,
}

next_pow_runs : (next_pow_of_2 5 ≡ 8) × (next_pow_of_2 8 ≡ 8) × (next_pow_of_2 0x8000_0001 ≡ 0)
unfolding next_pow_of_2
next_pow_runs = (refl, refl, refl)

rounding_runs : (round_down 0x12345 4096 ≡ 0x12000) × (round_up 0x12345 4096 ≡ 0x13000)
unfolding round_up
rounding_runs = (refl, refl)

next_pow_of_2-IsNextPow_example : IsNextPow 300 (next_pow_of_2 300)
next_pow_of_2-IsNextPow_example = next_pow_of_2-IsNextPow 300 (omega arith) (omega arith)

round_down_run : IsFloor 4096 0x12345 (round_down 0x12345 4096)
round_down_run = round_down-IsFloor 12 0x12345 (omega arith) (omega arith)

round_up-IsCeil_run : IsCeil 4096 0x12345 (round_up 0x12345 4096)
round_up-IsCeil_run = round_up-IsCeil 12 0x12345 (omega arith) (omega arith)

kvaddr2page-page2kvaddr_run :
    (kvaddr2page (page2kvaddr 77 + 5) ≡ 77) × (kpaddr2page (page2kpaddr 77 + 5) ≡ 77)
kvaddr2page-page2kvaddr_run = kvaddr2page-page2kvaddr 77 5 (omega arith) (omega arith)

page_table_entries_run :
    (pde_ptr 0xc0100000 ≡ 0xfffff000 + 4 * (0xc0100000 / 2 ^ 22))
    × (pte_ptr 0xc0100000 ≡ 0xffc00000 + 4 * (0xc0100000 / 2 ^ 12))
page_table_entries_run = page_table_entries 0xc0100000 (omega arith)
