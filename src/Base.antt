-- ===== src/Base.antt =====
-- Names that every module of the library shares: those of the libraries, passed on, Boolean tests on
-- the native numbers, and the children for lists, sorting, texts, and Python's integers, floats
-- and decimals.
mod Tests
pub mod Lists
pub mod Int
pub mod Float
pub mod Decimal
pub mod Text
pub mod Dict
pub mod Sorting
pub mod Result
pub use Tests.*
pub use Prim.Native.Nat.{ℕ, zero, suc, ◌+◌, ◌-◌, ◌*◌, ◌/◌, ◌%◌, ◌^◌, ◌≤◌, ◌<◌, min, max}
pub use Prim.Native.String.{String}
pub use mathlib.Core.Path.{◌≡◌, refl, sym, ap, ◌∙◌}
pub use mathlib.Core.Logic.{◌≢◌, ◌↔◌, ◌⊎◌, inl, inr}
pub use mathlib.Core.Bool.{Bool, true, false, not, ◌&&◌, ◌||◌}
pub use mathlib.Core.Option.{Option, none, some}
pub use mathlib.Core.List.{List, [], ◌∷◌, ◌++◌, map}
pub use native.Mathlib.Omega.{arith}
