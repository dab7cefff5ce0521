-- ===== src/Base.antt =====
-- Names that every module shares: the libraries' passed on, Boolean tests on the native numbers,
-- Go's int64, byte strings, and lists measured by native numbers. No part of the program is
-- modelled here; `Base.Text` and `Base.Int64` hold what the program uses of Go and its strings.
mod Test
mod Lists
pub mod Int
pub mod Int64
pub mod Text
pub mod Decimal
pub mod Dict
pub mod Order
unfoldable pub use Test.*
unfoldable pub use Lists.*
pub use Prim.Native.Nat.{ℕ, zero, suc, ◌+◌, ◌-◌, ◌*◌, ◌/◌, ◌%◌, ◌^◌, ◌≤◌, ◌<◌}
pub use mathlib.Core.Path.{◌≡◌, refl, sym, ap, ◌∙◌}
pub use mathlib.Core.Logic.{◌≢◌, ◌↔◌, ◌⊎◌, inl, inr}
pub use mathlib.Core.Bool.{Bool, true, false, not, ◌&&◌, ◌||◌}
pub use mathlib.Core.Option.{Option, none, some}
pub use mathlib.Core.List.{List, [], ◌∷◌, ◌++◌, map}
pub use native.Mathlib.Omega.{arith}
