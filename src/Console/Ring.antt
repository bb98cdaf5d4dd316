-- ===== src/Console/Ring.antt =====
-- The input buffer is a queue of at most 511 characters.
use atlos.Base.{
  ℕ, zero, suc, ◌+◌, ◌-◌, ◌%◌, ◌^◌, ◌<◌, ◌≡◌, ◌≢◌, refl, List, [], ◌∷◌, ◌++◌, length, arith,
  if◌then◌else◌, ◌==◌, update, ap, Bool-cases, ℕ-eq_cases, inl, inr,
}
use atlos.Console.{Cons, cons_put, cons_take}

pub record IsCons (c : Cons) : Type 0 where
  pub rpos_lt : c.rpos < 512
  pub wpos_lt : c.wpos < 512

-- The place that follows, around the end of the buffer.
abbrev pub next_pos : ℕ → ℕ
next_pos p = if p + 1 == 512 then 0 else p + 1

-- The `n` characters from `p` on, around the end of the buffer.
abbrev pub chars : (ℕ → ℕ) → ℕ → ℕ → List ℕ
chars buf p zero = []
chars buf p (suc n) = buf p ∷ chars buf (next_pos p) n

abbrev pub waiting : Cons → ℕ
waiting c = (c.wpos + 512 - c.rpos) % 512

-- The queue that the buffer stands for.
abbrev pub pending : Cons → List ℕ
pending c = chars c.buf c.rpos (waiting c)

length-chars : (buf : ℕ → ℕ) (p n : ℕ) → length (chars buf p n) ≡ n
length-chars buf p zero = refl
length-chars buf p (suc n) = ap suc (length-chars buf (next_pos p) n)

pub length-pending : (c : Cons) → length (pending c) ≡ waiting c
length-pending c = length-chars c.buf c.rpos (waiting c)

-- A write at the place behind the characters appends it.
chars_write :
    (n : ℕ) (buf : ℕ → ℕ) (p w x : ℕ)
    → p < 512
    → w < 512
    → n < 512
    → (p + n) % 512 ≡ w
    → chars (update buf w x) p (suc n) ≡ chars buf p n ++ x ∷ []
unfolding update
chars_write zero buf p w x hp hw hn e = ground arith
chars_write (suc n) buf p w x hp hw hn e = ground (arith, chars_write n buf (next_pos p) w x)

put_run :
    (c : Cons) (x : ℕ)
    → x ≢ 0
    → cons_put x c
      ≡ record { buf = update c.buf c.wpos (x % 2 ^ 8); rpos = c.rpos; wpos = next_pos c.wpos }
unfolding cons_put
put_run c x h = ground arith

put-IsCons : (c : Cons) (x : ℕ) → IsCons c → IsCons (cons_put x c)
unfolding cons_put
put-IsCons c x ok = elim (Bool-cases (x == 0)) [
  | inl e ↦ rw (cons_put, e) ok
  | inr e ↦ rw (cons_put, e) (record { rpos_lt = ok.rpos_lt; wpos_lt = ground arith })
]

-- `cons_put` of a character other than 0 appends its low byte to the queue while fewer than 511
-- wait, and empties the queue if 511 wait; of 0 it changes nothing. The buffer stays well formed.
pub put-pending :
    (c : Cons) (x : ℕ)
    → IsCons c
    → IsCons (cons_put x c)
      × (x ≡ 0 → cons_put x c ≡ c)
      × (x ≢ 0 → waiting c < 511 → pending (cons_put x c) ≡ pending c ++ x % 2 ^ 8 ∷ [])
      × (x ≢ 0 → waiting c ≡ 511 → pending (cons_put x c) ≡ [])
unfolding cons_put
put-pending c x ok = (
  put-IsCons c x ok,
  λ e. ground arith,
  λ h room.
      let one_more : (next_pos c.wpos + 512 - c.rpos) % 512 ≡ suc (waiting c) = ground arith in
      rw (put_run c x h, one_more)
        (chars_write (waiting c) c.buf c.rpos c.wpos (x % 2 ^ 8) ok.rpos_lt ok.wpos_lt (omega arith)
          (ground arith)),
  λ h full.
      let none_left : (next_pos c.wpos + 512 - c.rpos) % 512 ≡ 0 = ground arith in
      rw (put_run c x h, none_left) refl,
)

take_run :
    (c : Cons) → c.rpos ≢ c.wpos → cons_take c ≡ (c.buf c.rpos, record c { rpos = next_pos c.rpos })
unfolding cons_take
take_run c h = ground arith

-- `cons_take` returns the first character that waits and removes it, or returns 0 and changes
-- nothing if none waits. The buffer stays well formed.
pub take-pending :
    (c : Cons)
    → IsCons c
    → IsCons (cons_take c).1
      × ((y : ℕ) (ys : List ℕ)
          → pending c ≡ y ∷ ys
          → ((cons_take c).0 ≡ y) × (pending (cons_take c).1 ≡ ys))
      × (pending c ≡ [] → cons_take c ≡ (0, c))
unfolding cons_take
take-pending c ok = elim (ℕ-eq_cases c.rpos c.wpos) [
  | inl e ↦
      let none_left : waiting c ≡ 0 = omega arith in
      let run : cons_take c ≡ (0, c) = ground arith in
      (
        rw run ok,
        λ y ys q.
            let bad : ◌≡◌ {A = List ℕ} [] (y ∷ ys) = rw none_left at q in absurd (ground arith),
        λ q. run,
      )
  | inr e ↦
      let one_less : waiting c ≡ suc ((c.wpos + 512 - next_pos c.rpos) % 512) = ground arith in
      (
        rw (take_run c e) (record { rpos_lt = ground arith; wpos_lt = ok.wpos_lt }),
        λ y ys q.
            let cut : c.buf c.rpos
                  ∷ chars c.buf (next_pos c.rpos) ((c.wpos + 512 - next_pos c.rpos) % 512)
                ≡ y ∷ ys =
              rw one_less at q in
            rw (take_run c e) (ground arith),
        λ q.
            let bad : c.buf c.rpos
                  ∷ chars c.buf (next_pos c.rpos) ((c.wpos + 512 - next_pos c.rpos) % 512)
                ≡ [] =
              rw one_less at q in
            absurd (ground arith),
      )
]
