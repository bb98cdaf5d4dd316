-- ===== src/Printfmt/Step/Shown.antt =====
-- `vprintfmt` on a format made of items.
use atlos.Base.{
  ℕ, zero, suc, ◌+◌, ◌-◌, ◌^◌, ◌<◌, ◌≤◌, ◌≡◌, ◌≢◌, refl, Bool, true, false, Option, some, List, [],
  ◌∷◌, ◌++◌, map, length, max, arith, ◌∙◌, ap, ℤ, pos, negsuc, leb, if◌then◌else◌, ◌==◌, ◌&&◌,
}
use atlos.Printfmt.{above_zero, pad}
use atlos.Printfmt.Number.{Numeral, digit_char, feed, feed-append, replicate, printnum-Numeral}
use atlos.Printfmt.Step.{
  Flags, no_flags, Machine, Outcome, leave, step, switch, number, unsigned, signed, getuint, getint,
  put_string, put_string_arg, width_field, run_format, vprintfmt,
}
use atlos.Printfmt.Step.Items.{
  Conv, Item, conv_char, magnitude, zero_flag, width_digit, format_item, format, item_arg, args,
  IsItem, AllItems, Shows, ShowsAll, longest, in_text, in_escape, run_plain, run_percent,
  run_switch,
}
use atlos.Str.{Mem}
use atlos.Str.Text.{IsStr}

-- The flags of a number with the zero flag or not, and a width, or 0 for none.
abbrev num_width : ℕ → ℤ
num_width zero = negsuc 0
num_width (suc w) = pos (suc w)

abbrev num_flags : Bool → ℕ → Flags
num_flags z w = record no_flags { padc = if z then 0x30 else 0x20; width = num_width w }

conv_char-width :
    (text : Mem) (f w fmt : ℕ) (c : Conv)
    → text fmt ≡ conv_char c
    → width_field (suc f) text (0x31 + w) fmt 0 ≡ some (suc w, fmt)
unfolding width_field
conv_char-width text f w fmt Conv.signed_decimal e = ground (arith, e)
conv_char-width text f w fmt Conv.decimal e = ground (arith, e)
conv_char-width text f w fmt Conv.octal e = ground (arith, e)
conv_char-width text f w fmt Conv.hex e = ground (arith, e)

getuint_word : (a : ℕ) (ap : List ℕ) → getuint 0 (a ∷ ap) ≡ some (a, ap)
unfolding getuint
getuint_word a [] = refl
getuint_word a (v ∷ ap) = refl

getint_word :
    (a : ℕ) (ap : List ℕ)
    → getint 0 (a ∷ ap) ≡ some ((leb (2 ^ 31) a, magnitude Conv.signed_decimal a), ap)
unfolding getint
getint_word a ap = rw (getint, getuint_word a ap) (ground arith)

longest_first : (i : Item) (is : List Item) → longest (i ∷ is) ≡ max (longest (i ∷ [])) (longest is)
longest_first (Item.plain c) is = omega arith
longest_first Item.percent is = omega arith
longest_first (Item.chr a) is = omega arith
longest_first (Item.str p xs) is = omega arith
longest_first (Item.num z w c a) is = omega arith

width_of : (z : Bool) (w : ℕ) → above_zero (num_flags z w).width ≡ w
width_of z zero = refl
width_of z (suc w) = refl

module _ {S : Type 0} (putch : ℕ → S → S) (text m : Mem) where
  -- With `n` rounds more than at least `b`, the machine gets from one state to another.
  abbrev Reaches : ℕ → ℕ → Machine S → Machine S → Type 0
  Reaches b n s t =
      (f g : ℕ) → b ≤ f → g ≡ n + f → run_format putch g text m s ≡ run_format putch f text m t

  stay : (b : ℕ) (s : Machine S) → Reaches b 0 s s
  stay b s f g le e = let same : g ≡ f = omega arith in rw same refl

  one_step :
      (b : ℕ) (s t : Machine S)
      → ((f : ℕ) → b ≤ f → run_format putch (suc f) text m s ≡ run_format putch f text m t)
      → Reaches b 1 s t
  one_step b s t h f g le e = let next : g ≡ suc f = omega arith in rw next (h f le)

  then_steps :
      (b n k : ℕ) (s t u : Machine S) → Reaches b n s t → Reaches b k t u → Reaches b (n + k) s u
  then_steps b n k s t u p q f g le e =
      p (k + f) g (omega arith) (omega arith) ∙ q f (k + f) le refl

  Reaches-le : (b c n : ℕ) (s t : Machine S) → b ≤ c → Reaches b n s t → Reaches c n s t
  Reaches-le b c n s t le p f g le' e = p f g (omega arith) e

  zero_flag-Reaches :
      (z : Bool) (fmt : ℕ) (rest ap : List ℕ) (out : S)
      → IsStr text fmt (zero_flag z rest)
      → (n : ℕ) × (fmt' : ℕ) × (n + length rest ≡ length (zero_flag z rest))
        × IsStr text fmt' rest
        × Reaches 1 n (in_escape no_flags fmt ap out) (in_escape (num_flags z 0) fmt' ap out)
  unfolding switch
  zero_flag-Reaches false fmt rest ap out h =
      (0, fmt, omega arith, h, stay 1 (in_escape no_flags fmt ap out))
  zero_flag-Reaches true fmt rest ap out h = (
    1,
    fmt + 1,
    omega arith,
    h.2,
    one_step 1 (in_escape no_flags fmt ap out) (in_escape (num_flags true 0) (fmt + 1) ap out)
        (λ f le.
          run_switch putch text m f 0x30 fmt no_flags ap out
            (in_escape (num_flags true 0) (fmt + 1) ap out) h.0 (λ sub. refl)),
  )

  switch_width :
      (f w fmt : ℕ) (z : Bool) (c : Conv) (rest ap : List ℕ) (out : S)
      → suc w ≤ 9
      → 1 ≤ f
      → IsStr text (fmt + 1) (conv_char c ∷ rest)
      → (sub : Mem → Mem → List ℕ → S → Option S)
      → switch putch sub f text m (num_flags z 0) (0x31 + w) (fmt + 1) ap out
        ≡ Outcome.go (in_escape (num_flags z (suc w)) (fmt + 1) ap out)
  unfolding switch
  switch_width zero w fmt z c rest ap out le le' h sub = absurd (omega arith)
  switch_width (suc f) w fmt z c rest ap out le le' h sub =
      let a : (0x31 + w == 0x2d) ≡ false = ground arith in
      let b : (0x31 + w == 0x30) ≡ false = ground arith in
      let d : (leb 0x31 (0x31 + w) && leb (0x31 + w) 0x39) ≡ true = ground arith in
      rw (switch, a, b, d, conv_char-width text f w (fmt + 1) c h.0) refl

  width_digit-Reaches :
      (z : Bool) (w fmt : ℕ) (c : Conv) (rest ap : List ℕ) (out : S)
      → w ≤ 9
      → IsStr text fmt (width_digit w (conv_char c ∷ rest))
      → (n : ℕ) × (fmt' : ℕ) × (n + length (conv_char c ∷ rest)
          ≡ length (width_digit w (conv_char c ∷ rest)))
        × IsStr text fmt' (conv_char c ∷ rest)
        × Reaches 1 n (in_escape (num_flags z 0) fmt ap out) (in_escape (num_flags z w) fmt' ap out)
  width_digit-Reaches z zero fmt c rest ap out le h =
      (0, fmt, omega arith, h, stay 1 (in_escape (num_flags z 0) fmt ap out))
  width_digit-Reaches z (suc w) fmt c rest ap out le h = (
    1,
    fmt + 1,
    omega arith,
    h.2,
    one_step 1 (in_escape (num_flags z 0) fmt ap out)
        (in_escape (num_flags z (suc w)) (fmt + 1) ap out)
        (λ f le'.
          run_switch putch text m f (0x31 + w) fmt (num_flags z 0) ap out
            (in_escape (num_flags z (suc w)) (fmt + 1) ap out) h.0
            (λ sub. switch_width f w fmt z c rest ap out le le' h.2 sub)),
  )

  number_run :
      (fmt : ℕ) (z : Bool) (w b n : ℕ) (ap : List ℕ) (out : S)
      → 2 ≤ b
      → n < 2 ^ 64
      → (ds : List ℕ) × Numeral b n ds
        × (number putch (num_flags z w) b n fmt ap out
            ≡ leave putch fmt ap (
                feed putch
                  (replicate (w - length ds) (if z then 0x30 else 0x20) ++ map digit_char ds)
                  out))
  unfolding number
  number_run fmt z w b n ap out base small =
      let fl = num_flags z w in
      let (ds, numeral, below, run) =
        printnum-Numeral putch 64 n b fl.width fl.padc out base small in
      (ds, numeral, rw (number, run, width_of z w) refl)

  unsigned_run :
      (fmt : ℕ) (z : Bool) (w b a : ℕ) (ap : List ℕ) (out : S)
      → 2 ≤ b
      → a < 2 ^ 32
      → (ds : List ℕ) × Numeral b a ds
        × (unsigned putch (num_flags z w) b fmt (a ∷ ap) out
            ≡ leave putch fmt ap (
                feed putch
                  (replicate (w - length ds) (if z then 0x30 else 0x20) ++ map digit_char ds)
                  out))
  unfolding unsigned
  unsigned_run fmt z w b a ap out base lt =
      let (ds, numeral, run) = number_run fmt z w b a ap out base (omega arith) in
      (ds, numeral, rw (unsigned, getuint_word a ap) run)

  signed_run :
      (fmt : ℕ) (z : Bool) (w : ℕ) (neg : Bool) (n a : ℕ) (ap : List ℕ) (out : S)
      → getint 0 (a ∷ ap) ≡ some ((neg, n), ap)
      → n < 2 ^ 64
      → (ds : List ℕ) × Numeral 10 n ds
        × (signed putch (num_flags z w) fmt (a ∷ ap) out
            ≡ leave putch fmt ap (
                feed putch
                  ((if neg then 0x2d ∷ [] else [])
                    ++ (replicate (w - length ds) (if z then 0x30 else 0x20) ++ map digit_char ds))
                  out))
  unfolding signed
  signed_run fmt z w true n a ap out e lt =
      let (ds, numeral, run) = number_run fmt z w 10 n ap (putch 0x2d out) (omega arith) lt in
      (ds, numeral, rw (signed, e) run)
  signed_run fmt z w false n a ap out e lt =
      let (ds, numeral, run) = number_run fmt z w 10 n ap out (omega arith) lt in
      (ds, numeral, rw (signed, e) run)

  -- The conversion shows the number.
  conv_run :
      (fmt : ℕ) (z : Bool) (w : ℕ) (c : Conv) (a : ℕ) (ap : List ℕ) (out : S)
      → a < 2 ^ 32
      → (xs : List ℕ) × Shows (Item.num z w c a) xs
        × ((f : ℕ) (sub : Mem → Mem → List ℕ → S → Option S)
            → switch putch sub f text m (num_flags z w) (conv_char c) fmt (a ∷ ap) out
              ≡ leave putch fmt ap (feed putch xs out))
  unfolding switch
  conv_run fmt z w Conv.decimal a ap out lt =
      let (ds, n, run) = unsigned_run fmt z w 10 a ap out (omega arith) lt in
      (_, (ds, n, refl), λ f sub. run)
  conv_run fmt z w Conv.octal a ap out lt =
      let (ds, n, run) = unsigned_run fmt z w 8 a ap out (omega arith) lt in
      (_, (ds, n, refl), λ f sub. run)
  conv_run fmt z w Conv.hex a ap out lt =
      let (ds, n, run) = unsigned_run fmt z w 16 a ap out (omega arith) lt in
      (_, (ds, n, refl), λ f sub. run)
  conv_run fmt z w Conv.signed_decimal a ap out lt =
      let small : magnitude Conv.signed_decimal a < 2 ^ 64 = ground arith in
      let (ds, n, run) =
        signed_run fmt z w (leb (2 ^ 31) a) (magnitude Conv.signed_decimal a) a ap out
          (getint_word a ap) small in
      (_, (ds, n, refl), λ f sub. run)

  put_string-feed :
      (f : ℕ) (xs : List ℕ) (p n : ℕ) (fl : Flags) (s : S)
      → IsStr m p xs
      → length xs < f
      → fl.altflag ≡ false
      → fl.precision ≡ negsuc 0
      → fl.width ≡ negsuc n
      → (k : ℕ) × (put_string putch f m p fl s ≡ some (negsuc k, feed putch xs s))
  unfolding put_string
  put_string-feed zero xs p n fl s str enough alt prec w = absurd (omega arith)
  put_string-feed (suc f) [] p n fl s str enough alt prec w = (n, ground (arith, str, w))
  put_string-feed (suc f) (x ∷ xs) p n fl s str enough alt prec w =
      let (k, run) =
        put_string-feed f xs (p + 1) (suc n)
          (record fl { width = negsuc (suc n); precision = negsuc 0 }) (putch x s) str.2
          (omega arith) alt refl refl in
      (k, ground (arith, run, str, alt, prec, w))

  text-Reaches :
      (b fmt c : ℕ) (ap : List ℕ) (out : S)
      → text fmt ≡ c
      → c ≢ 0
      → c ≢ 0x25
      → Reaches b 1 (in_text fmt ap out) (in_text (fmt + 1) ap (putch c out))
  text-Reaches b fmt c ap out e h k =
      one_step b (in_text fmt ap out) (in_text (fmt + 1) ap (putch c out))
        (λ f le. run_plain putch text m f c fmt ap out e h k)

  percent-Reaches :
      (b fmt : ℕ) (ap : List ℕ) (out : S)
      → text fmt ≡ 0x25
      → Reaches b 1 (in_text fmt ap out) (in_escape no_flags (fmt + 1) ap out)
  percent-Reaches b fmt ap out e =
      one_step b (in_text fmt ap out) (in_escape no_flags (fmt + 1) ap out)
        (λ f le. run_percent putch text m f fmt ap out e)

  switch-Reaches :
      (b fmt c : ℕ) (fl : Flags) (ap : List ℕ) (out : S) (t : Machine S)
      → text fmt ≡ c
      → ((f : ℕ)
          → b ≤ f
          → (sub : Mem → Mem → List ℕ → S → Option S)
          → switch putch sub f text m fl c (fmt + 1) ap out ≡ Outcome.go t)
      → Reaches b 1 (in_escape fl fmt ap out) t
  switch-Reaches b fmt c fl ap out t e h =
      one_step b (in_escape fl fmt ap out) t
        (λ f le. run_switch putch text m f c fmt fl ap out t e (h f le))

  str_run :
      (f p : ℕ) (xs : List ℕ) (out : S)
      → p ≢ 0
      → IsStr m p xs
      → length xs < f
      → put_string_arg putch f m p no_flags out ≡ some (feed putch xs out)
  unfolding put_string_arg pad
  str_run f p xs out ne str enough =
      let there : (p == 0) ≡ false = ground arith in
      let (k, run) = put_string-feed f xs p 0 no_flags out str enough refl refl refl in
      rw (put_string_arg, there, run) refl

  run_end :
      (f fmt : ℕ) (out : S)
      → text fmt ≡ 0
      → run_format putch (suc f) text m (in_text fmt [] out) ≡ some out
  unfolding run_format step
  run_end f fmt out e = rw (run_format, step, e) refl

  item-Reaches :
      (i : Item) (b fmt : ℕ) (rest ap : List ℕ) (out : S)
      → IsItem m i
      → IsStr text fmt (format_item i rest)
      → longest (i ∷ []) < b
      → (xs : List ℕ) × (n : ℕ) × (fmt' : ℕ) × Shows i xs
        × (n + length rest ≡ length (format_item i rest))
        × IsStr text fmt' rest
        × Reaches b n (in_text fmt (item_arg i ap) out) (in_text fmt' ap (feed putch xs out))
  unfolding switch
  item-Reaches (Item.plain c) b fmt rest ap out ok h le =
      (c ∷ [], 1, fmt + 1, refl, omega arith, h.2, text-Reaches b fmt c ap out h.0 ok.0 ok.1)
  item-Reaches Item.percent b fmt rest ap out ok h le = (
    0x25 ∷ [],
    2,
    fmt + 1 + 1,
    refl,
    omega arith,
    h.2.2,
    then_steps b 1 1 (in_text fmt ap out) (in_escape no_flags (fmt + 1) ap out) _
        (percent-Reaches b fmt ap out h.0)
        (switch-Reaches b (fmt + 1) 0x25 no_flags ap out _ h.2.0 (λ f le' sub. refl)),
  )
  item-Reaches (Item.chr a) b fmt rest ap out ok h le = (
    a ∷ [],
    2,
    fmt + 1 + 1,
    refl,
    omega arith,
    h.2.2,
    then_steps b 1 1 (in_text fmt (a ∷ ap) out) (in_escape no_flags (fmt + 1) (a ∷ ap) out) _
        (percent-Reaches b fmt (a ∷ ap) out h.0)
        (switch-Reaches b (fmt + 1) 0x63 no_flags (a ∷ ap) out _ h.2.0 (λ f le' sub. refl)),
  )
  item-Reaches (Item.str p xs) b fmt rest ap out ok h le = (
    xs,
    2,
    fmt + 1 + 1,
    refl,
    omega arith,
    h.2.2,
    then_steps b 1 1 (in_text fmt (p ∷ ap) out) (in_escape no_flags (fmt + 1) (p ∷ ap) out)
        (in_text (fmt + 1 + 1) ap (feed putch xs out)) (percent-Reaches b fmt (p ∷ ap) out h.0)
        (switch-Reaches b (fmt + 1) 0x73 no_flags (p ∷ ap) out
          (in_text (fmt + 1 + 1) ap (feed putch xs out)) h.2.0
          (λ f le' sub. rw (str_run f p xs out ok.0 ok.1 (omega (arith, le'))) refl)),
  )
  item-Reaches (Item.num z w c a) b fmt rest ap out ok h le =
      let start = percent-Reaches b fmt (a ∷ ap) out h.0 in
      let (n₁, fmt₁, len₁, h₁, reach₁) =
        zero_flag-Reaches z (fmt + 1) (width_digit w (conv_char c ∷ rest)) (a ∷ ap) out h.2 in
      let (n₂, fmt₂, len₂, h₂, reach₂) = width_digit-Reaches z w fmt₁ c rest (a ∷ ap) out ok.0 h₁ in
      let (xs, shows, run) = conv_run (fmt₂ + 1) z w c a ap out ok.1 in
      let s₀ = in_text fmt (a ∷ ap) out in
      let s₁ = in_escape no_flags (fmt + 1) (a ∷ ap) out in
      let s₂ = in_escape (num_flags z 0) fmt₁ (a ∷ ap) out in
      let s₃ = in_escape (num_flags z w) fmt₂ (a ∷ ap) out in
      let s₄ = in_text (fmt₂ + 1) ap (feed putch xs out) in
      let last =
        switch-Reaches b fmt₂ (conv_char c) (num_flags z w) (a ∷ ap) out s₄ h₂.0
          (λ f le' sub. run f sub) in
      (
        xs,
        1 + (n₁ + (n₂ + 1)),
        fmt₂ + 1,
        shows,
        omega (arith, len₁, len₂),
        h₂.2,
        then_steps b 1 (n₁ + (n₂ + 1)) s₀ s₁ s₄ start (
            then_steps b n₁ (n₂ + 1) s₁ s₂ s₄ (Reaches-le 1 b n₁ s₁ s₂ (omega (arith, le)) reach₁) (
              then_steps b n₂ 1 s₂ s₃ s₄ (Reaches-le 1 b n₂ s₂ s₃ (omega (arith, le)) reach₂)
                last)),
      )

  items-Reaches :
      (is : List Item) (b fmt : ℕ) (out : S)
      → AllItems m is
      → IsStr text fmt (format is)
      → longest is < b
      → (xs : List ℕ) × (fmt' : ℕ) × ShowsAll is xs
        × (text fmt' ≡ 0)
        × Reaches b
            (length (format is))
            (in_text fmt (args is) out)
            (in_text fmt' [] (feed putch xs out))
  items-Reaches [] b fmt out ok h le = ([], fmt, refl, h, stay b (in_text fmt [] out))
  items-Reaches (i ∷ is) b fmt out ok h le =
      let (ys, n, fmt₁, shows, len, h₁, reach) =
        item-Reaches i b fmt (format is) (args is) out ok.0 h (omega (arith, longest_first i is)) in
      let (zs, fmt₂, shows', end, reach') =
        items-Reaches is b fmt₁ (feed putch ys out) ok.1 h₁ (omega (arith, longest_first i is)) in
      let total : n + length (format is) ≡ length (format (i ∷ is)) = omega (arith, len) in
      let joined = feed-append putch ys zs out in
      (
        ys ++ zs,
        fmt₂,
        (ys, zs, shows, shows', refl),
        end,
        rw (joined, ← total)
            (then_steps b n (length (format is)) (in_text fmt (args (i ∷ is)) out)
              (in_text fmt₁ (args is) (feed putch ys out))
              (in_text fmt₂ [] (feed putch zs (feed putch ys out))) reach reach'),
      )

  -- On a format of well-formed items with their arguments, and given two rounds more than the format
  -- and its longest string argument together have bytes, `vprintfmt` ends, and has put what the
  -- items show, in order.
  pub vprintfmt-ShowsAll :
      (is : List Item) (f fmt : ℕ) (out : S)
      → AllItems m is
      → IsStr text fmt (format is)
      → length (format is) + longest is + 1 < f
      → (xs : List ℕ) × ShowsAll is xs
        × (vprintfmt putch f text m fmt (args is) out ≡ some (feed putch xs out))
  unfolding vprintfmt
  vprintfmt-ShowsAll is f fmt out ok h enough =
      let b = suc (longest is) in
      let (xs, fmt', shows, end, reach) = items-Reaches is b fmt out ok h (omega arith) in
      let left = f - length (format is) in
      let last : left ≡ suc (left - 1) = omega arith in
      (
        xs,
        shows,
        reach left f (omega arith) (omega arith)
            ∙ rw last (run_end (left - 1) fmt' (feed putch xs out) end),
      )
