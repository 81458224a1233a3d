-- ===== src/Prelude.antt =====
-- The names that the other modules share: the libraries', passed on, and the helpers on tests,
-- texts and tables.
mod Tests
mod Lists
mod Members
mod Keys
mod Calls
mod Next
mod Rows
unfoldable pub use Tests.*
unfoldable pub use Lists.*
pub use Members.*
unfoldable pub use Keys.*
pub use Rows.*
unfoldable pub use Next.*
pub use Calls.*
pub use Prim.Native.Nat.{ℕ, zero, suc, ◌+◌, ◌-◌, ◌*◌, ◌/◌, ◌%◌, ◌^◌, ◌≤◌, ◌<◌, min, max}
pub use mathlib.Core.Path.{◌≡◌, refl, sym, ap, subst, ◌∙◌}
pub use mathlib.Core.Logic.{◌≢◌, ◌↔◌, ◌⊎◌, inl, inr}
pub use mathlib.Core.Bool.{Bool, true, false, not, ◌&&◌, ◌||◌}
pub use mathlib.Core.Option.{Option, none, some, some-injective}
pub use mathlib.Core.List.{List, [], ◌∷◌, ◌++◌, map}
pub use native.Mathlib.Omega.{arith}
