-- ===== src/Common.antt =====
-- The names that the other modules share: the libraries', passed on, tests and lists over the
-- native numbers, signed integers, and the outcomes of a Rust call.
mod Tests
mod Lists
mod Sorted
mod Counting
pub mod Int
pub mod Run
pub use Tests.*
pub use Lists.*
pub use Sorted.*
pub use Counting.*
pub use Prim.Native.Nat.{ℕ, zero, suc, ◌+◌, ◌-◌, ◌*◌, ◌/◌, ◌%◌, ◌^◌, ◌≤◌, ◌<◌, min}
pub use mathlib.Core.Path.{◌≡◌, refl, sym, ap, ◌∙◌, subst}
pub use mathlib.Core.Logic.{◌≢◌, ◌↔◌, ◌⊎◌, inl, inr}
pub use mathlib.Core.Bool.{Bool, true, false, ◌&&◌, ◌||◌, not}
pub use mathlib.Core.Option.{Option, none, some}
pub use mathlib.Core.List.{List, [], ◌∷◌, ◌++◌, map}
pub use native.Mathlib.Omega.{arith}
