-- ===== src/Kdebug/Backtrace.antt =====
-- `print_debuginfo` and `print_stackframe` of kern/debug/kdebug.c: what they print, without the
-- formats. A frame is read from `word`, the memory by words.
use atlos.Base.{
  ℕ, zero, suc, ◌+◌, ◌-◌, ◌%◌, ◌^◌, Option, none, some, List, [], ◌∷◌, ◌==◌, if◌then◌else◌, ℤ, pos,
  negsuc,
}
use atlos.Str.{Mem}
use atlos.Kdebug.Search.{Stab}
use atlos.Kdebug.{EipDebugInfo, debuginfo_eip}

-- The line of an address that is not found, or its file, line, function and distance from its start.
pub data Line : Type 0 where
  not_known : ℕ → Line
  at_line : ℕ → ℕ → List ℕ → ℕ → Line

-- The characters that are copied into `fnname`, an array of 256.
pub name_chars : Mem → ℕ → ℕ → List ℕ
name_chars m p zero = []
name_chars m p (suc n) = m p ∷ name_chars m (p + 1) n

pub record Frame : Type 0 where
  pub ebp : ℕ
  pub eip : ℕ
  pub args : List ℕ
  pub info : Line

abbrev pub stackframe_depth : ℕ
stackframe_depth = 20

module _ (m : Mem) (unknown : ℕ) (stabs : ℕ → Stab) (count stabstr stabstr_end f : ℕ) where
  -- The text of `print_debuginfo`.
  line_of : ℕ → ℤ × EipDebugInfo → Line
  unfolding name_chars
  line_of eip (pos zero, info) =
      at_line info.eip_file info.eip_line (name_chars m info.eip_fn_name info.eip_fn_namelen)
        ((eip + 2 ^ 32 - info.eip_fn_addr) % 2 ^ 32)
  line_of eip (pos (suc n), info) = not_known eip
  line_of eip (negsuc n, info) = not_known eip

  pub print_debuginfo : ℕ → Option Line
  unfolding line_of
  print_debuginfo eip = elim (debuginfo_eip m unknown stabs count stabstr stabstr_end f eip) [
    | none ↦ none
    | some r ↦ some (line_of eip r)
  ]

  -- The loop of `print_stackframe`, with the rounds that are left of the depth.
  pub walk_frames : (ℕ → ℕ) → ℕ → ℕ → ℕ → Option (List Frame)
  unfolding print_debuginfo
  walk_frames word zero ebp eip = some []
  walk_frames word (suc n) ebp eip =
      let args = word (ebp + 8) ∷ word (ebp + 12) ∷ word (ebp + 16) ∷ word (ebp + 20) ∷ [] in
      let rest = walk_frames word n (word ebp) (word (ebp + 4)) in
      if ebp == 0 then some [] else elim (print_debuginfo ((eip + 2 ^ 32 - 1) % 2 ^ 32)) [
        | none ↦ none
        | some line ↦ elim rest [
          | none ↦ none
          | some frames ↦ some (record { ebp = ebp; eip = eip; args = args; info = line } ∷ frames)
        ]
      ]

  -- `print_stackframe`, with what `read_ebp` and `read_eip` return.
  pub print_stackframe : (ℕ → ℕ) → ℕ → ℕ → Option (List Frame)
  unfolding walk_frames
  print_stackframe word ebp eip = walk_frames word stackframe_depth ebp eip
