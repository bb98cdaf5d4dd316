-- ===== src/Monitor/Words.antt =====
-- The words of a command line.
use atlos.Base.{
  ℕ, zero, suc, ◌+◌, ◌<◌, ◌≤◌, ◌≡◌, refl, ◌≢◌, true, false, ◌&&◌, not, some, List, [], ◌∷◌, ◌++◌,
  leb, ltb, ◌==◌, if◌then◌else◌, update, length, length-append, arith, ne→==, sym, ap, ◌∙◌,
}
use atlos.Str.{Mem}
use atlos.Str.Text.{Holds, Holds-frame, IsStr, IsStr-frame}
use atlos.Monitor.{maxargs, is_white, skip_white, skip_word, parse_loop, parse}

abbrev pub AllWhite : List ℕ → Type 0
AllWhite [] = Unit
AllWhite (x ∷ xs) = (is_white x ≡ true) × AllWhite xs

abbrev pub IsWord : List ℕ → Type 0
IsWord [] = Unit
IsWord (x ∷ xs) = (x ≢ 0) × (is_white x ≡ false) × IsWord xs

-- A line: words, each behind blanks, and blanks at its end.
abbrev pub line : List (List ℕ × List ℕ) → List ℕ → List ℕ
line [] end = end
line ((b, w) ∷ r) end = b ++ (w ++ line r end)

-- Where the words start.
abbrev pub starts : ℕ → List (List ℕ × List ℕ) → List ℕ
starts p [] = []
starts p ((b, w) ∷ r) = (p + length b) ∷ starts (p + length b + length w) r

-- There is a blank before the first word.
abbrev pub BlankFirst : List (List ℕ × List ℕ) → Type 0
BlankFirst [] = Unit
BlankFirst ((b, w) ∷ r) = length b ≢ 0

abbrev pub IsLine : List (List ℕ × List ℕ) → Type 0
IsLine [] = Unit
IsLine ((b, w) ∷ r) = AllWhite b × IsWord w × (length w ≢ 0) × BlankFirst r × IsLine r

-- Each word stands in memory as a string of its own.
abbrev pub WordsAt : Mem → ℕ → List (List ℕ × List ℕ) → Type 0
WordsAt m p [] = Unit
WordsAt m p ((b, w) ∷ r) = IsStr m (p + length b) w × WordsAt m (p + length b + length w) r

-- `g` is `m` with `n` null bytes from `p` on.
abbrev Zeroed : Mem → Mem → ℕ → ℕ → Type 0
Zeroed m g p n = (a : ℕ) → g a ≡ (if leb p a && ltb a (p + n) then 0 else m a)

-- No blank, or the end.
abbrev Stops : ℕ → Type 0
Stops c = (not (c == 0) && is_white c) ≡ false

-- A blank, or the end.
abbrev Ends : ℕ → Type 0
Ends c = (not (c == 0) && not (is_white c)) ≡ false

white_here : (c : ℕ) → is_white c ≡ true → (not (c == 0) && is_white c) ≡ true
white_here c white = ground arith

word_here : (c : ℕ) → c ≢ 0 → is_white c ≡ false → (not (c == 0) && not (is_white c)) ≡ true
word_here c ne black = ground arith

skip_white-Zeroed :
    (f : ℕ) (m : Mem) (b : List ℕ) (p : ℕ)
    → AllWhite b
    → Holds m p b
    → Stops (m (p + length b))
    → length b < f
    → (g : Mem) × (skip_white f m p ≡ some (p + length b, g)) × Zeroed m g p (length b)
unfolding skip_white update
skip_white-Zeroed zero m b p white h stops fuel = absurd (omega arith)
skip_white-Zeroed (suc f) m [] p white h stops fuel =
    let z : p + 0 ≡ p = omega arith in
    (m, rw (rw z at stops) (ap (λ t. some (t, m)) (sym z)), λ a. ground arith)
skip_white-Zeroed (suc f) m (x ∷ xs) p white h stops fuel =
    let m' = update m p 0 in
    let e : p + 1 + length xs ≡ p + suc (length xs) = omega arith in
    let same : m' (p + 1 + length xs) ≡ m (p + suc (length xs)) = ground arith in
    let h' = Holds-frame m m' xs (p + 1) (λ a lo hi. ground arith) h.1 in
    let (g, run, zeroed) =
      skip_white-Zeroed f m' xs (p + 1) white.1 h' (rw same stops) (omega arith) in
    let here = white_here (m p) (rw h.0 white.0) in
    (g, rw (here, run) (ap (λ t. some (t, g)) e), λ a. ground (arith, zeroed a))

skip_word-end :
    (f : ℕ) (m : Mem) (w : List ℕ) (p : ℕ)
    → IsWord w
    → Holds m p w
    → Ends (m (p + length w))
    → length w < f
    → skip_word f m p ≡ some (p + length w)
unfolding skip_word
skip_word-end zero m w p word h ends fuel = absurd (omega arith)
skip_word-end (suc f) m [] p word h ends fuel =
    let z : p + 0 ≡ p = omega arith in rw (rw z at ends) (ap (λ t. some t) (sym z))
skip_word-end (suc f) m (x ∷ xs) p word h ends fuel =
    let e : p + 1 + length xs ≡ p + suc (length xs) = omega arith in
    let here = word_here (m p) (rw h.0 word.0) (rw h.0 word.1) in
    rw here (skip_word-end f m xs (p + 1) word.2 h.1 (rw e ends) (omega arith) ∙ ap (λ t. some t) e)

module _ (m : Mem) where
  IsStr-split :
      (xs ys : List ℕ) (p : ℕ) → IsStr m p (xs ++ ys) → Holds m p xs × IsStr m (p + length xs) ys
  IsStr-split [] ys p h = let z : p + 0 ≡ p = omega arith in (tt, rw z h)
  IsStr-split (x ∷ xs) ys p h =
      let (front, back) = IsStr-split xs ys (p + 1) h.2 in
      let e : p + 1 + length xs ≡ p + suc (length xs) = omega arith in ((h.0, front), rw e at back)

  IsStr-Holds : (xs : List ℕ) (p : ℕ) → IsStr m p xs → Holds m p xs × (m (p + length xs) ≡ 0)
  IsStr-Holds [] p h = let z : p + 0 ≡ p = omega arith in (tt, rw z h)
  IsStr-Holds (x ∷ xs) p h =
      let (front, end) = IsStr-Holds xs (p + 1) h.2 in
      let e : p + 1 + length xs ≡ p + suc (length xs) = omega arith in ((h.0, front), rw e at end)

  IsStr-join : (w : List ℕ) (p : ℕ) → IsWord w → Holds m p w → m (p + length w) ≡ 0 → IsStr m p w
  IsStr-join [] p word h end = let z : p + 0 ≡ p = omega arith in rw z at end
  IsStr-join (x ∷ xs) p word h end =
      let e : p + 1 + length xs ≡ p + suc (length xs) = omega arith in
      (h.0, word.0, IsStr-join xs (p + 1) word.2 h.1 (rw e end))

  -- In front of the next word, or at the end, a word ends.
  end_of_line :
      (r : List (List ℕ × List ℕ)) (end : List ℕ) (q : ℕ)
      → IsLine r
      → BlankFirst r
      → AllWhite end
      → IsStr m q (line r end)
      → Ends (m q)
  end_of_line [] [] q is blank white h = ground (arith, h)
  end_of_line [] (x ∷ xs) q is blank white h = ground (arith, h.0, white.0)
  end_of_line (([], w) ∷ r) end q is blank white h = absurd (omega arith)
  end_of_line ((x ∷ xs, w) ∷ r) end q is blank white h = ground (arith, h.0, is.0.0)

  -- A word starts where the blanks stop.
  stop_at_word :
      (w ys : List ℕ) (q : ℕ) → IsWord w → length w ≢ 0 → IsStr m q (w ++ ys) → Stops (m q)
  stop_at_word [] ys q word ne h = absurd (omega arith)
  stop_at_word (x ∷ xs) ys q word ne h = ground (arith, h.0, word.1)

  word_start : (w : List ℕ) (q : ℕ) → IsWord w → length w ≢ 0 → Holds m q w → m q ≢ 0
  word_start [] q word ne h = absurd (omega arith)
  word_start (x ∷ xs) q word ne h = ground (arith, h.0, word.0)

  stop_at_end : (q : ℕ) → m q ≡ 0 → Stops (m q)
  stop_at_end q z = ground arith

module _ (f n : ℕ) (m g : Mem) (buf p argc : ℕ) where
  loop-end :
      skip_white f m buf ≡ some (p, g) → g p ≡ 0 → parse_loop f (suc n) m buf argc ≡ some ([], g)
  unfolding parse_loop
  loop-end run last = let z : (g p == 0) ≡ true = ground arith in rw (parse_loop, run, z) refl

  loop-word :
      (q : ℕ) (args : List ℕ) (g' : Mem)
      → skip_white f m buf ≡ some (p, g)
      → g p ≢ 0
      → argc < maxargs
      → skip_word f g p ≡ some q
      → parse_loop f n g q (argc + 1) ≡ some (args, g')
      → parse_loop f (suc n) m buf argc ≡ some (p ∷ args, g')
  unfolding parse_loop
  loop-word q args g' run some_word room word rest =
      let z = ne→== (g p) 0 some_word in
      let in_argv : leb maxargs argc ≡ false = ground arith in
      rw (parse_loop, run, z, in_argv, word, rest) refl

-- What the loop of `parse` leaves in memory, from `p` on.
pub record Parsed (m g : Mem) (p : ℕ) (r : List (List ℕ × List ℕ)) (end : List ℕ) : Type 0 where
  pub words : WordsAt g p r
  pub before : (a : ℕ) → a < p → g a ≡ m a
  pub behind : (a : ℕ) → p + length (line r end) ≤ a → g a ≡ m a
  pub closed : BlankFirst r → g p ≡ 0

pub loop-Parsed :
    (r : List (List ℕ × List ℕ)) (end : List ℕ) (f n : ℕ) (m : Mem) (p argc : ℕ)
    → IsLine r
    → AllWhite end
    → IsStr m p (line r end)
    → argc + length r ≤ maxargs
    → length (line r end) < f
    → length r < n
    → (g : Mem) × (parse_loop f n m p argc ≡ some (starts p r, g)) × Parsed m g p r end
loop-Parsed r end f zero m p argc is white h room fuel rounds = absurd (omega arith)
loop-Parsed [] end f (suc n) m p argc is white h room fuel rounds =
    let (bytes, zero_end) = IsStr-Holds m end p h in
    let (g, run, z) =
      skip_white-Zeroed f m end p white bytes (stop_at_end m (p + length end) zero_end) fuel in
    let last : g (p + length end) ≡ 0 = ground (arith, z (p + length end)) in
    (
      g,
      loop-end f n m g p (p + length end) argc run last,
      record {
        words = tt;
        before = λ a lt. ground (arith, z a);
        behind = λ a le. ground (arith, z a);
        closed = λ blank. ground (arith, z p);
      },
    )
loop-Parsed ((b, w) ∷ r) end f (suc n) m p argc is white h room fuel rounds =
    let lb = length b in
    let lw = length w in
    let p₁ = p + lb in
    let p₂ = p₁ + lw in
    let rest = line r end in
    let sizes : length (line ((b, w) ∷ r) end) ≡ lb + (lw + length rest) =
      length-append b (w ++ rest) ∙ ap (λ t. lb + t) (length-append w rest) in
    let (blanks, h₁) = IsStr-split m b (w ++ rest) p h in
    let (chars, h₂) = IsStr-split m w rest p₁ h₁ in
    let stops = stop_at_word m w rest p₁ is.1 is.2 h₁ in
    let (m₁, run, z) = skip_white-Zeroed f m b p is.0 blanks stops (omega (arith, sizes)) in
    let kept : (a : ℕ) → p₁ ≤ a → m₁ a ≡ m a = λ a le. ground (arith, z a) in
    let chars₁ = Holds-frame m m₁ w p₁ (λ a lo hi. kept a lo) chars in
    let k₂ = kept p₂ (omega arith) in
    let ends = end_of_line m r end p₂ is.4 is.3 white h₂ in
    let word_run = skip_word-end f m₁ w p₁ is.1 chars₁ (rw k₂ ends) (omega (arith, sizes)) in
    let h₃ = IsStr-frame m m₁ rest p₂ (λ a lo hi. kept a (omega (arith, lo))) h₂ in
    let (g, loop, done) =
      loop-Parsed r end f n m₁ p₂ (argc + 1) is.4 white h₃ (omega arith) (omega (arith, sizes))
        (omega arith) in
    let some_word : m₁ p₁ ≢ 0 = word_start m₁ w p₁ is.1 is.2 chars₁ in
    (
      g,
      loop-word f n m m₁ p p₁ argc p₂ (starts p₂ r) g run some_word (omega arith) word_run loop,
      record {
        words = (
          IsStr-join g w p₁ is.1 (Holds-frame m₁ g w p₁ (λ a lo hi. done.before a hi) chars₁)
              (done.closed is.3),
          done.words,
        );
        before = λ a lt. ground (arith, z a, done.before a);
        behind = λ a le. ground (arith, z a, done.behind a, sizes);
        closed = λ blank. ground (arith, z p, done.before p);
      },
    )

words_fuel :
    (r : List (List ℕ × List ℕ)) (end : List ℕ) (f : ℕ)
    → IsLine r
    → length (line r end) < f
    → length r < f
words_fuel [] end f is lt = omega arith
words_fuel ((b, w) ∷ r) end zero is lt = absurd (omega arith)
words_fuel ((b, w) ∷ r) end (suc f) is lt =
    let rest = line r end in
    let less =
      words_fuel r end f is.4
        (omega (arith, length-append b (w ++ rest), length-append w rest, is.2)) in
    omega (arith, less)

-- On a line of at most 16 words in memory, `parse`, given a round more than the line has bytes,
-- ends. `argv` holds where the words start, each word is then a string of its own, and no byte
-- outside of the line has changed.
pub parse-Parsed :
    (r : List (List ℕ × List ℕ)) (end : List ℕ) (f : ℕ) (m : Mem) (p : ℕ)
    → IsLine r
    → AllWhite end
    → IsStr m p (line r end)
    → length r ≤ maxargs
    → length (line r end) < f
    → (g : Mem) × (parse f m p ≡ some (starts p r, g)) × Parsed m g p r end
unfolding parse
parse-Parsed r end f m p is white h few fuel =
    loop-Parsed r end f f m p 0 is white h (omega (arith, few)) fuel (words_fuel r end f is fuel)
