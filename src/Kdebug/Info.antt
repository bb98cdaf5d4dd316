-- ===== src/Kdebug/Info.antt =====
-- What `debuginfo_eip` finds.
use atlos.Base.{
  ℕ, ◌+◌, ◌-◌, ◌%◌, ◌^◌, ◌<◌, ◌≤◌, ◌≡◌, refl, false, some, leb, pos, arith, ne→==, lt→ltb,
}
use atlos.Str.{Mem, strfind}
use atlos.Kdebug.Search.{Stab, stab_binsearch}
use atlos.Kdebug.Search.Rounds.{IsSorted}
use atlos.Kdebug.Search.Found.{IsFound, stab_binsearch_unique}
use atlos.Kdebug.{
  EipDebugInfo, n_so, n_fun, n_sline, debuginfo_eip, file_info, fun_info, line_info, file_and_args,
}

module _ (m : Mem) (unknown : ℕ) (stabs : ℕ → Stab) (count stabstr stabstr_end f addr : ℕ) where
  abbrev value : ℕ → ℕ
  value i = (stabs i).n_value

  -- What `debuginfo_eip` stores: the function is the one of the stab `fun`, and the line is that of the
  -- last stab of the region `line_end`.
  abbrev pub located : (file file_end fun fun_end line line_end name_end : ℕ) → EipDebugInfo
  located file file_end fun fun_end line line_end name_end =
      file_and_args m unknown stabs count stabstr stabstr_end f file fun fun_end line (record {
        eip_file = unknown;
        eip_line = (stabs (line_end - 1)).n_desc;
        eip_fn_name = stabstr + (stabs fun).n_strx;
        eip_fn_namelen = name_end - (stabstr + (stabs fun).n_strx);
        eip_fn_addr = value fun;
        eip_fn_narg = 0;
      })

  debuginfo_eip-run :
      (file file_end fun fun_end line line_end name_end : ℕ)
      → stabstr < stabstr_end
      → m (stabstr_end - 1) ≡ 0
      → 0 < file
      → stab_binsearch stabs n_so f 0 count addr ≡ some (pos file, file_end)
      → stab_binsearch stabs n_fun f file file_end addr ≡ some (pos fun, fun_end)
      → fun < fun_end
      → value fun ≤ addr
      → addr < 2 ^ 32
      → (stabs fun).n_strx < stabstr_end - stabstr
      → strfind f m (stabstr + (stabs fun).n_strx) 0x3a ≡ some name_end
      → stab_binsearch stabs n_sline f fun fun_end (addr - value fun) ≡ some (pos line, line_end)
      → line < line_end
      → debuginfo_eip m unknown stabs count stabstr stabstr_end f addr
        ≡ some (pos 0, located file file_end fun fun_end line line_end name_end)
  unfolding debuginfo_eip file_info fun_info line_info
  debuginfo_eip-run file file_end fun fun_end line line_end name_end strings ended so is_so is_fun
        in_fun low word strx name is_line in_line =
      let ok : leb stabstr_end stabstr ≡ false = ground (arith, strings) in
      let offset : (addr + 2 ^ 32 - value fun) % 2 ^ 32 ≡ addr - value fun =
        omega (arith, low, word) in
      let short = lt→ltb (stabs fun).n_strx (stabstr_end - stabstr) strx in
      rw
        (
          debuginfo_eip,
          ok,
          ended,
          is_so,
          file_info,
          ne→== file 0 (λ z. omega (arith, z, so)),
          is_fun,
          fun_info,
          lt→ltb fun fun_end in_fun,
          short,
          line_info,
          name,
          offset,
          is_line,
          lt→ltb line line_end in_line,
          short,
        )
        refl

  -- If the string table is not empty and ends in a null byte, the table of stabs is sorted for the files
  -- and for the functions of the file, and for the lines of the function by their distance from its
  -- start, none of these is at the next address, the regions of file, function and line that contain
  -- the address are as named, the file is not the first stab, the name of the function has an end
  -- and the rounds are enough, `debuginfo_eip` returns 0. It stores the start and the name of that
  -- function, and the line number of the last stab in the region of the line.
  pub debuginfo_eip-IsFound :
      (file file_end fun fun_end line line_end name_end : ℕ)
      → stabstr < stabstr_end
      → m (stabstr_end - 1) ≡ 0
      → IsSorted stabs n_so 0 count addr
      → IsSorted stabs n_fun file file_end addr
      → IsSorted stabs n_sline fun fun_end (addr - value fun)
      → 0 < file
      → IsFound stabs n_so 0 count addr file file_end
      → IsFound stabs n_fun file file_end addr fun fun_end
      → IsFound stabs n_sline fun fun_end (addr - value fun) line line_end
      → (stabs fun).n_strx < stabstr_end - stabstr
      → strfind f m (stabstr + (stabs fun).n_strx) 0x3a ≡ some name_end
      → count + 1 < f
      → debuginfo_eip m unknown stabs count stabstr stabstr_end f addr
        ≡ some (pos 0, located file file_end fun fun_end line line_end name_end)
  debuginfo_eip-IsFound file file_end fun fun_end line line_end name_end strings ended by_so by_fun
        by_line so in_so in_fun in_line strx name enough =
      debuginfo_eip-run file file_end fun fun_end line line_end name_end strings ended so
        (stab_binsearch_unique stabs n_so 0 count addr by_so f file file_end (omega (arith, enough))
          in_so)
        (stab_binsearch_unique stabs n_fun file file_end addr by_fun f fun fun_end
          (omega (arith, enough, in_so.2)) in_fun)
        in_fun.1 in_fun.4 (omega (arith, by_so.small)) strx name
        (stab_binsearch_unique stabs n_sline fun fun_end (addr - value fun) by_line f line line_end
          (omega (arith, enough, in_so.2, in_fun.2)) in_line)
        in_line.1
