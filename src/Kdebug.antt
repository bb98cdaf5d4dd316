-- ===== src/Kdebug.antt =====
-- kern/debug/kdebug.c and kern/debug/stab.h: the debug information of the kernel. The table of stabs
-- is a function from the index, with the number of stabs; names are addresses in memory.
pub mod Search
pub mod Info
pub mod Backtrace
mod Tests
use atlos.Base.{
  ℕ, zero, suc, ◌+◌, ◌-◌, ◌/◌, ◌%◌, ◌^◌, Bool, true, false, ◌&&◌, ◌||◌, not, Option, none, some,
  List, [], ◌∷◌, ltb, leb, ◌==◌, if◌then◌else◌, ℤ, pos, negsuc,
}
use atlos.Str.{Mem, strfind}
use atlos.Kdebug.Search.{Stab, stab_binsearch}

abbrev pub n_fun : ℕ
n_fun = 0x24

abbrev pub n_sline : ℕ
n_sline = 0x44

abbrev pub n_so : ℕ
n_so = 0x64

abbrev pub n_sol : ℕ
n_sol = 0x84

abbrev pub n_psym : ℕ
n_psym = 0xa0

-- `struct eipdebuginfo`.
pub record EipDebugInfo : Type 0 where
  pub eip_file : ℕ
  pub eip_line : ℕ
  pub eip_fn_name : ℕ
  pub eip_fn_namelen : ℕ
  pub eip_fn_addr : ℕ
  pub eip_fn_narg : ℕ

-- Memory, the address of the constant "<unknown>", the two tables, and the rounds of the searches.
-- `none` is an access in front of the table of stabs, or the end of the rounds.
module _ (m : Mem) (unknown : ℕ) (stabs : ℕ → Stab) (count stabstr stabstr_end f : ℕ) where
  -- The search backwards for the file, from `lfile + n` down to `lfile`; `none` says that it gets below.
  pub find_file : ℕ → ℕ → Option ℕ
  find_file lfile zero =
      let s = stabs lfile in
      if (s.n_type == n_sol) || (s.n_type == n_so && not (s.n_value == 0)) then some lfile else none
  find_file lfile (suc n) =
      let s = stabs (lfile + suc n) in
      let rest = find_file lfile n in
      if (s.n_type == n_sol) || (s.n_type == n_so && not (s.n_value == 0))
      then some (lfile + suc n)
      else rest

  -- The number of arguments: the stabs from `lline` on, `n` at most.
  pub count_args : ℕ → ℕ → ℕ
  count_args zero lline = 0
  count_args (suc n) lline =
      let rest = count_args n (lline + 1) in if (stabs lline).n_type == n_psym then suc rest else 0

  -- The end of `debuginfo_eip`, once the line is known. `rfun` is one more than the int.
  pub file_and_args : ℕ → ℕ → ℕ → ℕ → EipDebugInfo → EipDebugInfo
  unfolding find_file count_args
  file_and_args lfile lfun rfun lline info =
      let file : Option ℕ = if leb lfile lline then find_file lfile (lline - lfile) else none in
      let eip_file : ℕ = elim file [
        | none ↦ info.eip_file
        | some i ↦
            if ltb (stabs i).n_strx (stabstr_end - stabstr)
            then stabstr + (stabs i).n_strx
            else info.eip_file
      ] in
      let narg = if ltb (lfun + 1) rfun then count_args (rfun - 1 - (lfun + 1)) (lfun + 1) else 0 in
      record info { eip_file = eip_file; eip_fn_narg = info.eip_fn_narg + narg }

  -- `debuginfo_eip` from the length of the name on, for the lines between `lline` and `rline`.
  pub line_info : ℕ → ℕ → ℕ → ℕ → ℕ → ℕ → EipDebugInfo → Option (ℤ × EipDebugInfo)
  unfolding file_and_args
  line_info lfile lfun rfun lline rline addr info = elim (strfind f m info.eip_fn_name 0x3a) [
    | none ↦ none
    | some end ↦
        let named = record info { eip_fn_namelen = end - info.eip_fn_name } in
        elim (stab_binsearch stabs n_sline f lline rline addr) [
          | none ↦ none
          | some (negsuc n, r) ↦ none
          | some (pos l, r) ↦
              if ltb l r
              then some (
                pos 0,
                file_and_args lfile lfun rfun l
                    (record named { eip_line = (stabs (r - 1)).n_desc }),
              )
              else some (negsuc 0, named)
        ]
  ]

  -- `debuginfo_eip` once the function is looked for. The ints `rfile` and `rfun` are given by one more.
  pub fun_info : ℕ → ℕ → ℕ → ℕ → ℕ → EipDebugInfo → Option (ℤ × EipDebugInfo)
  unfolding line_info
  fun_info lfile rfile lfun rfun addr info =
      let s = stabs lfun in
      let name =
        if ltb s.n_strx (stabstr_end - stabstr) then stabstr + s.n_strx else info.eip_fn_name in
      if ltb lfun rfun
      then line_info lfile lfun rfun lfun rfun ((addr + 2 ^ 32 - s.n_value) % 2 ^ 32)
          (record info { eip_fn_name = name; eip_fn_addr = s.n_value })
      else line_info lfile lfun rfun lfile rfile addr (record info { eip_fn_addr = addr })

  -- `debuginfo_eip` once the file is looked for. From a negative index on, the next search reads in
  -- front of the table.
  file_info : ℤ → ℕ → ℕ → EipDebugInfo → Option (ℤ × EipDebugInfo)
  unfolding fun_info
  file_info (negsuc n) rfile addr info = none
  file_info (pos lfile) rfile addr info =
      let found : Option (ℤ × EipDebugInfo) = elim (stab_binsearch stabs n_fun f lfile rfile addr) [
        | none ↦ none
        | some (negsuc n, rfun) ↦ none
        | some (pos lfun, rfun) ↦ fun_info lfile rfile lfun rfun addr info
      ] in
      if lfile == 0 then some (negsuc 0, info) else found

  abbrev pub unknown_info : ℕ → EipDebugInfo
  unknown_info addr = record {
    eip_file = unknown;
    eip_line = 0;
    eip_fn_name = unknown;
    eip_fn_namelen = 9;
    eip_fn_addr = addr;
    eip_fn_narg = 0;
  }

  pub debuginfo_eip : ℕ → Option (ℤ × EipDebugInfo)
  unfolding file_info
  debuginfo_eip addr =
      let search : Option (ℤ × EipDebugInfo) = elim (stab_binsearch stabs n_so f 0 count addr) [
        | none ↦ none
        | some (lfile, rfile) ↦ file_info lfile rfile addr (unknown_info addr)
      ] in
      if leb stabstr_end stabstr || not (m (stabstr_end - 1) == 0)
      then some (negsuc 0, unknown_info addr)
      else search
