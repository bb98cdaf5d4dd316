-- ===== src/Pmm.antt =====
-- The address and size arithmetic of kern/mm/pmm.h and kern/mm/pmm.c, over 32-bit words.
pub mod Pow
pub mod Round
mod Tests
use atlos.Base.{ℕ, ◌+◌, ◌-◌, ◌*◌, ◌/◌, ◌%◌, ◌^◌, Bool, ◌==◌, if◌then◌else◌, bit_and, bit_or}

-- `is_pow_of_2(x)`, a macro on uint32_t, where `0 - 1` is all ones.
unfoldable pub is_pow_of_2 : ℕ → Bool
is_pow_of_2 x = bit_and x ((x + 2 ^ 32 - 1) % 2 ^ 32) == 0

-- `x |= x >> 1; x |= x >> 2; ...`
pub smear : ℕ → ℕ
smear x =
    let x₁ = bit_or x (x / 2) in
    let x₂ = bit_or x₁ (x₁ / 2 ^ 2) in
    let x₃ = bit_or x₂ (x₂ / 2 ^ 4) in let x₄ = bit_or x₃ (x₃ / 2 ^ 8) in bit_or x₄ (x₄ / 2 ^ 16)

unfoldable pub next_pow_of_2 : ℕ → ℕ
unfolding smear is_pow_of_2
next_pow_of_2 x = if is_pow_of_2 x then x else (smear x + 1) % 2 ^ 32

-- `ROUNDDOWN(x, n)` and `ROUNDUP(x, n)`: `~(n - 1)` is `2 ^ 32 - n` for `0 < n`.
unfoldable pub round_down : ℕ → ℕ → ℕ
round_down x n = bit_and x (2 ^ 32 - n)

unfoldable pub round_up : ℕ → ℕ → ℕ
unfolding round_down
round_up x n = round_down ((x + (n - 1)) % 2 ^ 32) n

-- `POWOF2`-sized constants of kern/mm/pmm.h and kern/mm/memlayout.h.
abbrev pub page_shift : ℕ
page_shift = 12

abbrev pub page_size : ℕ
page_size = 4096

abbrev pub kernbase : ℕ
kernbase = 0xc0000000

-- `KADDRV2P` and `KADDRP2V`, on uintptr_t.
pub kaddr_v2p : ℕ → ℕ
kaddr_v2p v = (v + 2 ^ 32 - kernbase) % 2 ^ 32

pub kaddr_p2v : ℕ → ℕ
kaddr_p2v p = (p + kernbase) % 2 ^ 32

-- A `page_t *` stands for its index into `kpages`.
pub page2kpaddr : ℕ → ℕ
page2kpaddr page = page * 2 ^ page_shift % 2 ^ 32

pub page2kvaddr : ℕ → ℕ
unfolding page2kpaddr
page2kvaddr page = (page2kpaddr page + kernbase) % 2 ^ 32

pub kpaddr2page : ℕ → ℕ
kpaddr2page paddr = paddr / 2 ^ page_shift

pub kvaddr2page : ℕ → ℕ
unfolding kaddr_v2p
kvaddr2page vaddr = kaddr_v2p vaddr / 2 ^ page_shift

-- `PDE_INDEX`, `PTE_INDEX`, and the addresses of the entries in the self-mapped page tables; a
-- `uint32_t *` counts in fours.
pub pde_index : ℕ → ℕ
pde_index addr = addr / 2 ^ 22

pub pte_index : ℕ → ℕ
pte_index addr = bit_and addr 0x003ff000 / 2 ^ 12

pub pde_ptr : ℕ → ℕ
unfolding pde_index
pde_ptr addr = (0xfffff000 + 4 * pde_index addr) % 2 ^ 32

pub pte_ptr : ℕ → ℕ
unfolding pte_index
pte_ptr addr = (0xffc00000 + 4 * (bit_and addr 0xffc00000 / 2 ^ 12) + 4 * pte_index addr) % 2 ^ 32
