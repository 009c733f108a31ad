-- ===== src/Base.antt =====
-- What the modules share: library names passed on, tests on numbers, and the children below.
mod Tests
mod Lists
pub mod Int
pub mod Text
pub mod Decimal
pub mod Split
pub mod Ipv4
pub mod Value
pub mod Dict
pub mod PythonInt
pub mod Result
pub mod Shell
pub use Tests.*
pub use Lists.*
pub use Prim.Native.Nat.{ℕ, zero, suc, ◌+◌, ◌-◌, ◌*◌, ◌/◌, ◌%◌, ◌^◌, ◌≤◌, ◌<◌}
pub use mathlib.Core.Path.{◌≡◌, refl, sym, ap, ◌∙◌}
pub use mathlib.Core.Logic.{◌≢◌, ◌↔◌, ◌⊎◌, inl, inr}
pub use mathlib.Core.Bool.{Bool, true, false, not, ◌&&◌, ◌||◌}
pub use mathlib.Core.Option.{Option, none, some}
pub use mathlib.Core.List.{List, [], ◌∷◌, ◌++◌, map}
pub use native.Mathlib.Omega.{arith}
