-- ===== src/Base/Maps.antt =====
-- Memory as a function from addresses: one write, and what it leaves alone.
use Prim.Native.Nat.{ℕ}
use mathlib.Core.Path.{◌≡◌}
use mathlib.Core.Logic.{◌≢◌}
use atlos.Base.Tests.{◌==◌, if◌then◌else◌, ==_refl, ne→==}

unfoldable pub update {ℓ} : {A : Type ℓ} → (ℕ → A) → ℕ → A → ℕ → A
update m a v b = if b == a then v else m b

pub update_self {ℓ} : {A : Type ℓ} (m : ℕ → A) (a : ℕ) (v : A) → update m a v a ≡ v
unfolding update
update_self m a v = rw (==_refl a)

pub update_ne {ℓ} : {A : Type ℓ} (m : ℕ → A) (a b : ℕ) (v : A) → b ≢ a → update m a v b ≡ m b
unfolding update
update_ne m a b v h = rw (ne→== b a h)
