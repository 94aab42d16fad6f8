-- ===== src/Base.antt =====
-- The names that the other modules share: the libraries' passed on, and those of the children:
-- tests on numbers, lists with native indices, memory that is read and written with a check,
-- signed integers and machine words.
mod Tests
mod Lists
mod Memory
mod Blocks
mod Cells
mod Int
mod Bits
mod Order
pub use Tests.*
pub use Lists.*
pub use Memory.*
pub use Blocks.*
pub use Cells.*
unfoldable pub use Cells.{tally}
unfoldable pub use Memory.{store_all}
pub use Int.{ℤ, pos, negsuc, pos_part, neg_part, sub_ℕ, ltb_ℤ}
unfoldable pub use Int.{◌+ℤ◌, ◌-ℤ◌}
pub use Bits.*
unfoldable pub use Bits.{tabulated}
unfoldable pub use Order.{lt_wf}
pub use Prim.Native.Nat.{
  ℕ, zero, suc, ◌+◌, ◌-◌, ◌*◌, ◌/◌, ◌%◌, ◌^◌, ◌≤◌, ◌<◌, min, max, bit_and, bit_or, bit_xor,
}
pub use mathlib.Core.Path.{◌≡◌, refl, sym, ap, ap₂, ◌∙◌, subst}
pub use mathlib.Core.Logic.{◌≢◌, ◌↔◌, ◌⊎◌, inl, inr}
pub use mathlib.Core.Bool.{Bool, true, false, ◌&&◌, ◌||◌, not}
pub use mathlib.Core.Option.{Option, none, some}
pub use mathlib.Core.List.{List, [], ◌∷◌, ◌++◌, map}
pub use native.Mathlib.Omega.{arith}
