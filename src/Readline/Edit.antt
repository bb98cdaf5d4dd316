-- ===== src/Readline/Edit.antt =====
-- What `readline` returns is the edited line, as a string.
use atlos.Base.{
  ℕ, suc, ◌+◌, ◌-◌, ◌%◌, ◌^◌, ◌<◌, ◌≤◌, ◌≡◌, ◌≢◌, refl, ◌⊎◌, Option, some, List, [], ◌∷◌, ◌++◌,
  length, map, arith, if◌then◌else◌, ◌==◌, ltb, leb, update, update_self, sym, ◌∙◌, Bool-cases,
  ℕ-eq_cases, inl, inr, ap,
}
use atlos.Readline.{Line, Outcome, readline, readline_loop, edit_char}
use atlos.Str.Text.{IsStr}

-- The line after a key, its last character first: a printable character is appended while there are
-- fewer than 1023, a backspace takes the last one away, and all else is dropped.
abbrev pub press : ℕ → List ℕ → List ℕ
press c line =
    if leb 0x20 c
    then (if ltb (length line) 1023 then c ∷ line else line)
    else if c == 8
    then elim line [ [] ↦ [] | _ ∷ rest ↦ rest ]
    else line

abbrev pub edited : List ℕ → List ℕ → List ℕ
edited [] line = line
edited (c ∷ keys) line = edited keys (press c line)

-- What is on the console after a key, the last character first: a key that is kept or takes a
-- character away is echoed, all else is not.
abbrev pub echo : ℕ → List ℕ → List ℕ → List ℕ
echo c line out =
    if leb 0x20 c
    then (if ltb (length line) 1023 then c ∷ out else out)
    else if c == 8
    then elim line [ [] ↦ out | _ ∷ _ ↦ 8 ∷ out ]
    else out

abbrev pub echoed : List ℕ → List ℕ → List ℕ → List ℕ
echoed [] line out = out
echoed (c ∷ keys) line out = echoed keys (press c line) (echo c line out)

-- Keys that are bytes and do not end the line.
abbrev pub Keys : List ℕ → Type 0
Keys [] = Unit
Keys (c ∷ keys) = (c < 256) × (c ≢ 10) × (c ≢ 13) × Keys keys

-- The buffer below `length line` holds the line.
abbrev pub Stored : (ℕ → ℕ) → List ℕ → Type 0
Stored buf [] = Unit
Stored buf (c ∷ line) = (buf (length line) ≡ c) × (0x20 ≤ c) × Stored buf line

abbrev pub IsLine : Line → List ℕ → List ℕ → Type 0
IsLine s line out = (s.i ≡ length line) × (length line ≤ 1023) × (s.out ≡ out) × Stored s.buf line

Stored-update :
    (buf : ℕ → ℕ) (line : List ℕ) (i v : ℕ)
    → length line ≤ i
    → Stored buf line
    → Stored (update buf i v) line
unfolding update
Stored-update buf [] i v le h = tt
Stored-update buf (c ∷ line) i v le h =
    (ground arith, h.1, Stored-update buf line i v (omega arith) h.2)

back-IsLine :
    (s : Line) (line out : List ℕ)
    → IsLine s line out
    → IsLine (edit_char 8 s) (press 8 line) (echo 8 line out)
unfolding edit_char
back-IsLine s [] out h = let same : edit_char 8 s ≡ s = ground arith in rw same h
back-IsLine s (x ∷ line) out h =
    let run : edit_char 8 s ≡ record { buf = s.buf; i = s.i - 1; out = 8 ∷ s.out } = ground arith in
    rw run (omega (arith, h.0), omega (arith, h.1), ap (λ t. 8 ∷ t) h.2, h.3.2)

edit_char-IsLine :
    (c : ℕ) (s : Line) (line out : List ℕ)
    → c < 256
    → IsLine s line out
    → IsLine (edit_char c s) (press c line) (echo c line out)
unfolding edit_char
edit_char-IsLine c s line out byte h = elim (Bool-cases (leb 0x20 c)) [
  | inl p ↦ elim (Bool-cases (ltb (length line) 1023)) [
    | inl r ↦
        let kept : press c line ≡ c ∷ line = ground arith in
        let run : edit_char c s
            ≡ record { buf = update s.buf s.i (c % 2 ^ 8); i = s.i + 1; out = c ∷ s.out } =
          ground arith in
        let shown : echo c line out ≡ c ∷ out = ground arith in
        rw (run, kept, shown)
          (
            omega (arith, h.0),
            ground arith,
            ap (λ t. c ∷ t) h.2,
            (
              rw (sym h.0) (update_self s.buf s.i (c % 2 ^ 8) ∙ omega arith),
              ground arith,
              Stored-update s.buf line s.i (c % 2 ^ 8) (omega (arith, h.0)) h.3,
            ),
          )
    | inr r ↦
        let kept : press c line ≡ line = ground arith in
        let shown : echo c line out ≡ out = ground arith in
        let run : edit_char c s ≡ s = ground arith in rw (run, kept, shown) h
  ]
  | inr p ↦ elim (ℕ-eq_cases c 8) [
    | inl e ↦ rw e (back-IsLine s line out h)
    | inr e ↦
        let kept : press c line ≡ line = ground arith in
        let shown : echo c line out ≡ out = ground arith in
        let run : edit_char c s ≡ s = ground arith in rw (run, kept, shown) h
  ]
]

-- A list taken apart from its front onto another.
abbrev pub reverse_onto : List ℕ → List ℕ → List ℕ
reverse_onto [] ys = ys
reverse_onto (x ∷ xs) ys = reverse_onto xs (x ∷ ys)

Stored-IsStr :
    (buf : ℕ → ℕ) (line ys : List ℕ)
    → Stored buf line
    → IsStr buf (length line) ys
    → IsStr buf 0 (reverse_onto line ys)
Stored-IsStr buf [] ys h k = k
Stored-IsStr buf (c ∷ line) ys h k =
    Stored-IsStr buf line (c ∷ ys) h.2 (h.0, (λ z. omega (arith, h.1)), rw next k)
  where
    next : length line + 1 ≡ suc (length line)
    next = omega arith

one_press :
    (c : ℕ) (input : List (Option ℕ)) (s : Line)
    → c ≢ 10
    → c ≢ 13
    → readline_loop (some c ∷ input) s ≡ readline_loop input (edit_char c s)
unfolding readline_loop
one_press c input s n r = ground arith

last_press :
    (c : ℕ) (input : List (Option ℕ)) (s : Line)
    → (c ≡ 10) ⊎ (c ≡ 13)
    → readline_loop (some c ∷ input) s
      ≡ (Outcome.line, record { buf = update s.buf s.i 0; i = s.i; out = c ∷ s.out })
unfolding readline_loop
last_press c input s ends = ground arith

many_presses :
    (keys : List ℕ) (rest : List (Option ℕ)) (s : Line) (line out : List ℕ)
    → Keys keys
    → IsLine s line out
    → (s' : Line) × (readline_loop (map some keys ++ rest) s ≡ readline_loop rest s')
      × IsLine s' (edited keys line) (echoed keys line out)
many_presses [] rest s line out keys_ok h = (s, refl, h)
many_presses (c ∷ keys) rest s line out keys_ok h =
    let (s', run, h') =
      many_presses keys rest (edit_char c s) (press c line) (echo c line out) keys_ok.3
        (edit_char-IsLine c s line out keys_ok.0 h) in
    (s', one_press c (map some keys ++ rest) s keys_ok.1 keys_ok.2 ∙ run, h')

-- Of keys that are bytes other than line feed and carriage return and then one of these, `readline`
-- ends with the line that the keys edit, as a string of at most 1023 characters from the start of
-- its buffer on. On the console is each key that was kept or took a character away, in order, and then
-- the key that ended the line.
pub readline-edited :
    (buf : ℕ → ℕ) (keys : List ℕ) (enter : ℕ) (rest : List (Option ℕ))
    → Keys keys
    → (enter ≡ 10) ⊎ (enter ≡ 13)
    → (s : Line) × (readline buf (map some keys ++ some enter ∷ rest) ≡ (Outcome.line, s))
      × IsStr s.buf 0 (reverse_onto (edited keys []) [])
      × (length (edited keys []) ≤ 1023)
      × (s.out ≡ enter ∷ echoed keys [] [])
unfolding readline
readline-edited buf keys enter rest keys_ok ends =
    let (s, run, h) =
      many_presses keys (some enter ∷ rest) (record { buf = buf; i = 0; out = [] }) [] [] keys_ok
        (refl, omega arith, refl, tt) in
    (
      record { buf = update s.buf s.i 0; i = s.i; out = enter ∷ s.out },
      run ∙ last_press enter rest s ends,
      Stored-IsStr (update s.buf s.i 0) (edited keys []) []
          (Stored-update s.buf (edited keys []) s.i 0 (omega (arith, h)) h.3)
          (rw (sym h.0) (update_self s.buf s.i 0)),
      h.1,
      ap (λ t. enter ∷ t) h.2,
    )
