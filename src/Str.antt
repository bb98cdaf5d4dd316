-- ===== src/Str.antt =====
-- libs/string.c: strings and blocks of memory. Memory is a function from addresses to bytes, as
-- unsigned char; the loops are those behind `#else`, without the inline assembly of libs/x86.h.
-- Addresses are not wrapped: no string and no block runs past the end of the address space.
pub mod Text
pub mod Length
pub mod Compare
pub mod Find
pub mod Move
pub mod Copy
pub mod Number
mod Tests
use atlos.Base.{
  ℕ, zero, suc, ◌+◌, ◌-◌, ◌*◌, ◌%◌, ◌^◌, Bool, true, false, ◌&&◌, ◌||◌, not, Option, none, some,
  ltb, leb, ◌==◌, if◌then◌else◌, update, ℤ, pos, negsuc, minus,
}

abbrev pub Mem : Type 0
Mem = ℕ → ℕ

-- The loops that look for a terminator run on fuel: `none` is a read of one byte too many.
pub strlen_loop : ℕ → Mem → ℕ → ℕ → Option ℕ
strlen_loop zero m s cnt = none
strlen_loop (suc f) m s cnt =
    let rest = strlen_loop f m (s + 1) ((cnt + 1) % 2 ^ 32) in if m s == 0 then some cnt else rest

pub strlen : ℕ → Mem → ℕ → Option ℕ
unfolding strlen_loop
strlen f m s = strlen_loop f m s 0

-- The loop of `strnlen`, with `k` the rounds that `cnt < len` leaves.
pub strnlen_loop : ℕ → Mem → ℕ → ℕ → ℕ
strnlen_loop zero m s cnt = cnt
strnlen_loop (suc k) m s cnt =
    let rest = strnlen_loop k m (s + 1) (cnt + 1) in if m s == 0 then cnt else rest

pub strnlen : Mem → ℕ → ℕ → ℕ
unfolding strnlen_loop
strnlen m s len = strnlen_loop len m s 0

pub strcpy_loop : ℕ → Mem → ℕ → ℕ → Option Mem
strcpy_loop zero m p src = none
strcpy_loop (suc f) m p src =
    let m' = update m p (m src) in
    let rest = strcpy_loop f m' (p + 1) (src + 1) in if m src == 0 then some m' else rest

pub strcpy : ℕ → Mem → ℕ → ℕ → Option (ℕ × Mem)
unfolding strcpy_loop
strcpy f m dst src = elim (strcpy_loop f m dst src) [ none ↦ none | some m' ↦ some (dst, m') ]

pub strncpy_loop : Mem → ℕ → ℕ → ℕ → Mem
strncpy_loop m p src zero = m
strncpy_loop m p src (suc len) =
    strncpy_loop (update m p (m src)) (p + 1) (if m src == 0 then src else src + 1) len

pub strncpy : Mem → ℕ → ℕ → ℕ → ℕ × Mem
unfolding strncpy_loop
strncpy m dst src len = (dst, strncpy_loop m dst src len)

pub strcmp : ℕ → Mem → ℕ → ℕ → Option ℤ
strcmp zero m s1 s2 = none
strcmp (suc f) m s1 s2 =
    let rest = strcmp f m (s1 + 1) (s2 + 1) in
    if not (m s1 == 0) && (m s1 == m s2) then rest else some (minus (m s1) (m s2))

pub strncmp : Mem → ℕ → ℕ → ℕ → ℤ
strncmp m s1 s2 zero = pos 0
strncmp m s1 s2 (suc n) =
    let rest = strncmp m (s1 + 1) (s2 + 1) n in
    if not (m s1 == 0) && (m s1 == m s2) then rest else minus (m s1) (m s2)

-- `strchr`: the address, or 0 for NULL.
pub strchr : ℕ → Mem → ℕ → ℕ → Option ℕ
strchr zero m s c = none
strchr (suc f) m s c =
    let rest = strchr f m (s + 1) c in
    if m s == 0 then some 0 else if m s == c then some s else rest

unfoldable pub strfind : ℕ → Mem → ℕ → ℕ → Option ℕ
strfind zero m s c = none
strfind (suc f) m s c =
    let rest = strfind f m (s + 1) c in
    if m s == 0 then some s else if m s == c then some s else rest

-- The parts of `strtol`. The white space, from `s` on.
pub skip_blank : ℕ → Mem → ℕ → Option ℕ
skip_blank zero m s = none
skip_blank (suc f) m s =
    let rest = skip_blank f m (s + 1) in if (m s == 0x20) || (m s == 0x09) then rest else some s

-- The sign: where the number goes on, and `neg`.
pub sign : Mem → ℕ → ℕ × Bool
sign m s = if m s == 0x2b then (s + 1, false) else if m s == 0x2d then (s + 1, true) else (s, false)

-- The prefix of the base: where the digits begin, and the base.
pub prefix : Mem → ℕ → ℕ → ℕ × ℕ
prefix m s base =
    if ((base == 0) || (base == 16)) && ((m s == 0x30) && (m (s + 1) == 0x78))
    then (s + 2, 16)
    else if (base == 0) && (m s == 0x30)
    then (s + 1, 8)
    else if base == 0
    then (s, 10)
    else (s, base)

unfoldable pub digit : ℕ → Option ℕ
digit c =
    if leb 0x30 c && leb c 0x39
    then some (c - 0x30)
    else if leb 0x61 c && leb c 0x7a
    then some (c - 0x61 + 10)
    else if leb 0x41 c && leb c 0x5a
    then some (c - 0x41 + 10)
    else none

-- The loop over the digits; `val` is a 32-bit word, which wraps.
pub digits : ℕ → Mem → ℕ → ℕ → ℕ → Option (ℕ × ℕ)
digits zero m s base val = none
digits (suc f) m s base val = elim (digit (m s)) [
  | none ↦ some (val, s)
  | some dig ↦
      let rest = digits f m (s + 1) base ((val * base + dig) % 2 ^ 32) in
      if leb base dig then some (val, s) else rest
]

-- The value, as a 32-bit word in two's complement, and `*endptr`.
pub strtol : ℕ → Mem → ℕ → ℕ → Option (ℕ × ℕ)
strtol f m s base = elim (skip_blank f m s) [
  | none ↦ none
  | some s₁ ↦
      let signed = sign m s₁ in
      let based = prefix m signed.0 base in
      elim (digits f m based.0 based.1 0) [
        | none ↦ none
        | some (val, end) ↦ some (if signed.1 then (2 ^ 32 - val) % 2 ^ 32 else val, end)
      ]
]

pub memset_loop : Mem → ℕ → ℕ → ℕ → Mem
memset_loop m p c zero = m
memset_loop m p c (suc n) = memset_loop (update m p c) (p + 1) c n

unfoldable pub memset : Mem → ℕ → ℕ → ℕ → ℕ × Mem
unfolding memset_loop
memset m s c n = (s, memset_loop m s c n)

-- `*d ++ = *s ++`, `n` times.
pub copy_up : Mem → ℕ → ℕ → ℕ → Mem
copy_up m d s zero = m
copy_up m d s (suc n) = copy_up (update m d (m s)) (d + 1) (s + 1) n

-- `*-- d = *-- s`, `n` times.
pub copy_down : Mem → ℕ → ℕ → ℕ → Mem
copy_down m d s zero = m
copy_down m d s (suc n) = copy_down (update m (d - 1) (m (s - 1))) (d - 1) (s - 1) n

pub memmove : Mem → ℕ → ℕ → ℕ → ℕ × Mem
unfolding copy_up copy_down
memmove m dst src n =
    if ltb src dst && ltb dst (src + n)
    then (dst, copy_down m (dst + n) (src + n) n)
    else (dst, copy_up m dst src n)

pub memcpy : Mem → ℕ → ℕ → ℕ → ℕ × Mem
unfolding copy_up
memcpy m dst src n = (dst, copy_up m dst src n)

pub memcmp : Mem → ℕ → ℕ → ℕ → ℤ
memcmp m s1 s2 zero = pos 0
memcmp m s1 s2 (suc n) =
    let rest = memcmp m (s1 + 1) (s2 + 1) n in if m s1 == m s2 then rest else minus (m s1) (m s2)
