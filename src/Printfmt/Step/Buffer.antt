-- ===== src/Printfmt/Step/Buffer.antt =====
-- `vsnprintf` and its buffer.
use atlos.Base.{ℕ, ◌-◌, ◌%◌, ◌^◌, List, length, min}
use atlos.Printfmt.Step.{SprintBuf}
use atlos.Str.{Mem}

abbrev pub byte : ℕ → ℕ
byte c = c % 2 ^ 8

abbrev buffer : Mem → ℕ → ℕ → ℕ → SprintBuf
buffer mem buf ebuf cnt = record { mem = mem; buf = buf; ebuf = ebuf; cnt = cnt }

-- How many of the characters fit.
abbrev fit : List ℕ → ℕ → ℕ → ℕ
fit xs d e = min (length xs) (e - d)
