-- ===== src/Base.antt =====
-- What the other modules share: library names passed on, tests, lists, text and results.
mod Tests
mod Lists
mod Text
pub mod Int
pub mod Table
pub mod Result
pub mod Dict
pub use Tests.*
pub use Lists.*
pub use Text.*
pub use Int.{ℤ, pos, negsuc, before}
unfoldable pub use Text.{string_discrete}
pub use Prim.Native.Nat.{ℕ, zero, suc, ◌+◌, ◌-◌, ◌*◌, ◌/◌, ◌%◌, ◌^◌, ◌≤◌, ◌<◌}
pub use Prim.Native.String.{String}
pub use mathlib.Core.Path.{◌≡◌, refl, sym, ap, ◌∙◌}
pub use mathlib.Core.Logic.{◌≢◌, ◌↔◌, ◌⊎◌, inl, inr}
pub use mathlib.Core.Bool.{Bool, true, false, not, ◌&&◌, ◌||◌}
pub use mathlib.Core.Option.{Option, none, some}
pub use mathlib.Core.List.{List, [], ◌∷◌, ◌++◌, map}
pub use native.Mathlib.Omega.{arith}
