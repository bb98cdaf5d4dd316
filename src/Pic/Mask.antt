-- ===== src/Pic/Mask.antt =====
-- The mask in the controllers is the mask in `irq_mask`, in whatever order they are set up.
use atlos.Base.{
  ℕ, ◌/◌, ◌%◌, ◌^◌, ◌<◌, ◌≡◌, refl, ◌≢◌, Bool, true, ◌&&◌, Option, none, some, List, [], ◌∷◌, arith,
  ◌==◌, if◌then◌else◌, bit, bit-le, bit-bit_and, bit_and, bit_xor, holds_below, below_holds, ==_iff,
  ne→==, Bool-cases, inl, inr, ap, sym, ◌∙◌,
}
use atlos.Pic.{Pic, pic_setmask, pic_enable, pic_init}

-- A device that keeps what is written, the last write first.
abbrev pub record_outb : ℕ → ℕ → List (ℕ × ℕ) → List (ℕ × ℕ)
record_outb port v log = (port, v) ∷ log

-- The last value written to a port.
abbrev pub last_write : ℕ → List (ℕ × ℕ) → Option ℕ
last_write port [] = none
last_write port ((p, v) ∷ log) = if p == port then some v else last_write port log

-- The digits of the complement of `2 ^ k` in a word of 16 bits.
mask_test : ℕ → ℕ → Bool
mask_test k j = (bit (bit_xor 0xffff (2 ^ k)) j == (if j == k then 0 else 1)) && (bit 0xffff j == 1)

mask_table : holds_below 16 (λ k. holds_below 16 (mask_test k)) ≡ true
unfolding holds_below mask_test
mask_table = refl

mask_digit :
    (k j : ℕ)
    → k < 16
    → j < 16
    → (bit (bit_xor 0xffff (2 ^ k)) j ≡ (if j == k then 0 else 1)) × (bit 0xffff j ≡ 1)
unfolding mask_test
mask_digit k j hk hj =
    let row = below_holds 16 (λ k. holds_below 16 (mask_test k)) k mask_table hk in
    let cell : mask_test k j ≡ true = below_holds 16 (mask_test k) j row hj in
    (
      (==_iff (bit (bit_xor 0xffff (2 ^ k)) j) (if j == k then 0 else 1)).0 (ground (arith, cell)),
      (==_iff (bit 0xffff j) 1).0 (ground (arith, cell)),
    )

abbrev pub enabled : ℕ → ℕ → ℕ
enabled mask irq = bit_and mask (bit_xor 0xffff (2 ^ irq))

enabled-digit :
    (mask irq j : ℕ)
    → irq < 16
    → j < 16
    → bit (enabled mask irq) j ≡ (if j == irq then 0 else bit mask j)
enabled-digit mask irq j hk hj = ground (
  arith,
  bit-bit_and mask (bit_xor 0xffff (2 ^ irq)) j,
  (mask_digit irq j hk hj).0,
  bit-le mask j,
)

enabled-ne : (mask irq : ℕ) → irq < 16 → enabled mask irq ≢ 0xffff
enabled-ne mask irq hk e = ground (
  arith,
  ap (λ (t : ℕ). bit t irq) e,
  enabled-digit mask irq irq hk hk,
  (mask_digit irq irq hk hk).1,
)

module _ (irq : ℕ) (pic : Pic) (log : List (ℕ × ℕ)) where
  abbrev pub enable_first : Pic × List (ℕ × ℕ)
  enable_first = let (p, l) = pic_enable record_outb irq pic log in pic_init record_outb p l

  abbrev pub init_first : Pic × List (ℕ × ℕ)
  init_first = let (p, l) = pic_init record_outb pic log in pic_enable record_outb irq p l

  enable_first_eq :
      irq < 16
      → (enable_first.0.irq_mask ≡ enabled pic.irq_mask irq)
        × (last_write 0x21 enable_first.1 ≡ some (enabled pic.irq_mask irq % 2 ^ 8))
        × (last_write 0xa1 enable_first.1 ≡ some (enabled pic.irq_mask irq / 2 ^ 8))
  unfolding pic_init pic_enable pic_setmask
  enable_first_eq hk =
      let ne = ne→== (enabled pic.irq_mask irq) 0xffff (enabled-ne pic.irq_mask irq hk) in
      (rw ne refl, rw ne refl, rw ne refl)

  init_first_eq :
      (init_first.0.irq_mask ≡ enabled pic.irq_mask irq)
      × (last_write 0x21 init_first.1 ≡ some (enabled pic.irq_mask irq % 2 ^ 8))
      × (last_write 0xa1 init_first.1 ≡ some (enabled pic.irq_mask irq / 2 ^ 8))
  unfolding pic_init pic_enable pic_setmask
  init_first_eq = elim (Bool-cases (pic.irq_mask == 0xffff)) [
    | inl e ↦ (rw e refl, rw e refl, rw e refl)
    | inr e ↦ (rw e refl, rw e refl, rw e refl)
  ]

  -- `pic_enable` of a line below 16, before `pic_init` or after it, enables exactly that line: in the
  -- kept mask its bit is cleared and every other bit is as before, and the low and the high byte of
  -- this mask are what was last written to the mask registers of the two controllers. Both orders
  -- give the same mask.
  pub enable-either_order :
      (j : ℕ)
      → irq < 16
      → j < 16
      → (bit enable_first.0.irq_mask j ≡ (if j == irq then 0 else bit pic.irq_mask j))
        × (last_write 0x21 enable_first.1 ≡ some (enable_first.0.irq_mask % 2 ^ 8))
        × (last_write 0xa1 enable_first.1 ≡ some (enable_first.0.irq_mask / 2 ^ 8))
        × (init_first.0.irq_mask ≡ enable_first.0.irq_mask)
        × (last_write 0x21 init_first.1 ≡ last_write 0x21 enable_first.1)
        × (last_write 0xa1 init_first.1 ≡ last_write 0xa1 enable_first.1)
  enable-either_order j hk hj =
      let (e₀, e₁, e₂) = enable_first_eq hk in
      let (i₀, i₁, i₂) = init_first_eq in
      (
        ap (λ (t : ℕ). bit t j) e₀ ∙ enabled-digit pic.irq_mask irq j hk hj,
        e₁ ∙ ap (λ (t : ℕ). some (t % 2 ^ 8)) (sym e₀),
        e₂ ∙ ap (λ (t : ℕ). some (t / 2 ^ 8)) (sym e₀),
        i₀ ∙ sym e₀,
        i₁ ∙ sym e₁,
        i₂ ∙ sym e₂,
      )
