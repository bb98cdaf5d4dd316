-- ===== src/Monitor.antt =====
-- kern/debug/kmonitor.c: the command line of the kernel monitor. `argv` is the list of its entries.
pub mod Words
pub mod Select
mod Tests
use atlos.Base.{
  ℕ, zero, suc, ◌+◌, Bool, true, false, ◌&&◌, ◌||◌, not, Option, none, some, List, [], ◌∷◌, leb,
  ◌==◌, if◌then◌else◌, update, length, ℤ, pos, is_zero,
}
use atlos.Str.{Mem, strcmp}

abbrev pub maxargs : ℕ
maxargs = 16

-- `strchr(WHITESPACE, c) != NULL`, for a `c` other than 0.
abbrev pub is_white : ℕ → Bool
is_white c = (c == 32) || (c == 9) || (c == 10) || (c == 13)

-- The first inner loop of `parse`. Every loop has `f` rounds at most.
pub skip_white : ℕ → Mem → ℕ → Option (ℕ × Mem)
skip_white zero m buf = none
skip_white (suc f) m buf =
    let rest = skip_white f (update m buf 0) (buf + 1) in
    if not (m buf == 0) && is_white (m buf) then rest else some (buf, m)

-- The second one.
pub skip_word : ℕ → Mem → ℕ → Option ℕ
skip_word zero m buf = none
skip_word (suc f) m buf =
    let rest = skip_word f m (buf + 1) in
    if not (m buf == 0) && not (is_white (m buf)) then rest else some buf

-- The loop of `parse` from `argc` on: the entries of `argv` that it adds. `none` is a write behind
-- the end of `argv`, for which the code has a warning only.
pub parse_loop : ℕ → ℕ → Mem → ℕ → ℕ → Option (List ℕ × Mem)
unfolding skip_white skip_word
parse_loop f zero m buf argc = none
parse_loop f (suc n) m buf argc = elim (skip_white f m buf) [
  | none ↦ none
  | some (p, m₁) ↦
      if m₁ p == 0
      then some ([], m₁)
      else if leb maxargs argc
      then none
      else elim (skip_word f m₁ p) [
        | none ↦ none
        | some q ↦ elim (parse_loop f n m₁ q (argc + 1)) [
          | none ↦ none
          | some (args, m₂) ↦ some (p ∷ args, m₂)
        ]
      ]
]

pub parse : ℕ → Mem → ℕ → Option (List ℕ × Mem)
unfolding parse_loop
parse f m buf = parse_loop f f m buf 0

-- The loop of `runcmd` over the addresses of the names, from the `i`-th on: the command found.
pub find_command : ℕ → Mem → List ℕ → ℕ → ℕ → Option (Option ℕ)
find_command f m [] arg i = some none
find_command f m (name ∷ names) arg i =
    let rest = find_command f m names arg (i + 1) in
    elim (strcmp f m name arg) [ none ↦ none | some d ↦ if is_zero d then some (some i) else rest ]

-- `runcmd`, where `func` are the commands and `unknown` is the message.
module _ {S : Type 0} (func : ℕ → ℕ → List ℕ → Mem → S → ℤ × S) (unknown : ℕ → Mem → S → S) where
  pub runcmd : ℕ → Mem → List ℕ → ℕ → S → Option (ℤ × S)
  unfolding parse find_command
  runcmd f m names buf s = elim (parse f m buf) [
    | none ↦ none
    | some ([], m') ↦ some (pos 0, s)
    | some (arg ∷ args, m') ↦ elim (find_command f m' names arg 0) [
      | none ↦ none
      | some none ↦ some (pos 0, unknown arg m' s)
      | some (some i) ↦ some (func i (length args) args m' s)
    ]
  ]
