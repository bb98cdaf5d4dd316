-- ===== src/Str/Text.antt =====
-- What memory holds: a list of bytes at an address, and a terminated string.
use atlos.Base.{ℕ, suc, ◌+◌, ◌<◌, ◌≤◌, ◌≡◌, ◌≢◌, List, [], ◌∷◌, length, arith}
use atlos.Str.{Mem}

-- The bytes from `s` on are `xs`.
abbrev pub Holds : Mem → ℕ → List ℕ → Type 0
Holds m s [] = Unit
Holds m s (x ∷ xs) = (m s ≡ x) × Holds m (s + 1) xs

-- At `s` stands the string `xs`, without a null byte inside and with one at its end.
abbrev pub IsStr : Mem → ℕ → List ℕ → Type 0
IsStr m s [] = m s ≡ 0
IsStr m s (x ∷ xs) = (m s ≡ x) × (x ≢ 0) × IsStr m (s + 1) xs

module _ (m g : Mem) where
  pub Holds-frame :
      (xs : List ℕ) (s : ℕ)
      → ((a : ℕ) → s ≤ a → a < s + length xs → g a ≡ m a)
      → Holds m s xs
      → Holds g s xs
  Holds-frame [] s same h = tt
  Holds-frame (x ∷ xs) s same h = (
    ground (arith, same s),
    Holds-frame xs (s + 1) (λ a p q. same a (omega arith) (omega arith)) h.1,
  )

  pub IsStr-frame :
      (xs : List ℕ) (s : ℕ)
      → ((a : ℕ) → s ≤ a → a < s + suc (length xs) → g a ≡ m a)
      → IsStr m s xs
      → IsStr g s xs
  IsStr-frame [] s same h = ground (arith, same s)
  IsStr-frame (x ∷ xs) s same h = (
    ground (arith, same s),
    h.1,
    IsStr-frame xs (s + 1) (λ a p q. same a (omega arith) (omega arith)) h.2,
  )
