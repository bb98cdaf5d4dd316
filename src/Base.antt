-- ===== src/Base.antt =====
-- The names that the other modules share: the libraries', passed on, and those of six children.
mod Tests
mod Lists
mod Maps
mod Bits
mod Ints
mod Table
pub use Tests.*
pub use Lists.*
pub use Ints.{ℤ, minus, is_neg, is_zero, minus-is_zero, minus-is_neg}
pub use Ints.ℤ.{pos, negsuc}
unfoldable pub use Maps.{update}
unfoldable pub use Table.{holds_below}
pub use Table.{below_holds}
pub use Maps.{update_self, update_ne}
pub use Bits.{
  bit, bit-zero, bit-le, bit-bit_and, bit-bit_or, bit_above, bit_top, all_zero, ones, bit_below_pow,
  bit_below_ones, bits_ext, bit_and_halves, and_all_ones,
}
pub use Prim.Native.Nat.{ℕ, zero, suc, ◌+◌, ◌-◌, ◌*◌, ◌/◌, ◌%◌, ◌^◌, ◌≤◌, ◌<◌, min, max}
pub use Prim.Native.Nat.{bit_and, bit_or, bit_xor}
pub use mathlib.Core.Path.{◌≡◌, refl, sym, ap, ◌∙◌, fun_ext}
pub use mathlib.Core.Logic.{◌≢◌, ◌↔◌, ◌⊎◌, inl, inr}
pub use mathlib.Core.Bool.{Bool, true, false, ◌&&◌, ◌||◌, not}
pub use mathlib.Core.Option.{Option, none, some}
pub use mathlib.Core.List.{List, [], ◌∷◌, ◌++◌, map}
pub use native.Mathlib.Omega.{arith}
