-- ===== src/Prelude.antt =====
-- The names that every module shares: those of the libraries, passed on, and those of the children
-- (Boolean tests, lists measured by native numbers, signed integers, the equality interface).
mod Tests
mod Lists
mod EqClass
pub mod Int
mod Outcome
pub use Tests.*
pub use Lists.*
pub use EqClass.*
pub use Outcome.*
pub use Prim.Native.Nat.{ℕ, zero, suc, ◌+◌, ◌-◌, ◌*◌, ◌/◌, ◌%◌, ◌≤◌, ◌<◌}
pub use Prim.Native.String.{String}
pub use mathlib.Core.Path.{◌≡◌, refl, sym, ap, ◌∙◌}
pub use mathlib.Core.Logic.{◌≢◌, ◌↔◌, ◌⊎◌, inl, inr}
pub use mathlib.Core.Bool.{Bool, true, false, not, ◌&&◌, ◌||◌}
pub use mathlib.Core.Option.{Option, none, some}
pub use mathlib.Core.List.{List, [], ◌∷◌, ◌++◌, map}
pub use native.Mathlib.Omega.{arith}
