-- ===== src/Base.antt =====
-- Names that the other modules share: the libraries', passed on, with Boolean tests, lists measured
-- by native numbers, bits of words and 32-bit arithmetic.
mod Tests
mod Lists
mod Bits
mod Words
mod Reverse
mod Numerals
pub use Tests.*
pub use Lists.*
pub use Bits.*
pub use Words.*
pub use Reverse.*
pub use Numerals.*
pub use Prim.Native.Nat.{
  ℕ, zero, suc, ◌+◌, ◌-◌, ◌*◌, ◌/◌, ◌%◌, ◌^◌, ◌≤◌, ◌<◌, min, max, bit_and, bit_or, bit_xor,
}
pub use mathlib.Core.Path.{◌≡◌, refl, sym, ap, ◌∙◌, fun_ext}
pub use mathlib.Core.Logic.{◌≢◌, ◌↔◌, ◌⊎◌, inl, inr}
pub use mathlib.Core.Bool.{Bool, true, false, not, ◌&&◌, ◌||◌}
pub use mathlib.Core.Option.{Option, none, some}
pub use mathlib.Core.List.{List, [], ◌∷◌, ◌++◌, map}
pub use native.Mathlib.Omega.{arith}
