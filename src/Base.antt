-- ===== src/Base.antt =====
-- The names that the other modules share: the libraries', passed on, and those of the children.
mod Tests
mod Lists
mod Bits
mod Text
mod Int
mod Results
pub use Tests.*
pub use Lists.*
pub use Text.*
pub use Int.{ℤ, pos, negsuc, pos_part, neg_part, sub_ℕ, ◌≤ℤ◌, ltb_ℤ, signed64}
unfoldable pub use Int.{◌+ℤ◌}
pub use Results.*
unfoldable pub use Bits.{bit}
pub use Bits.{bit-lt, bit_zero, bit-bit_or, bit-bit_and, bit-shift_one, bit-complement}
pub use Bits.{
  bit_and-shift_one, eq-zero_of_bits, bit_or-lt, bit_and-le, bit_and_byte, bit_and_mask-lt,
  bit_and_mask-ge,
}
pub use Prim.Native.Nat.{ℕ, zero, suc, ◌+◌, ◌-◌, ◌*◌, ◌/◌, ◌%◌, ◌^◌, ◌≤◌, ◌<◌, bit_and, bit_or}
pub use mathlib.Core.Path.{◌≡◌, refl, sym, ap, subst, ◌∙◌}
pub use mathlib.Core.Logic.{◌≢◌, ◌↔◌, ◌⊎◌, inl, inr}
pub use mathlib.Core.Bool.{Bool, true, false, not, ◌&&◌, ◌||◌}
pub use mathlib.Core.Option.{Option, none, some}
pub use mathlib.Core.List.{List, [], ◌∷◌, ◌++◌, map}
pub use native.Mathlib.Omega.{arith}
unfoldable pub use native.Mathlib.Decide.{ℕ_discrete}
