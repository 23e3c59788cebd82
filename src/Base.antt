-- ===== src/Base.antt =====
-- The names that the modules share: the library's, passed on, and those of the children: tests on
-- numbers, lists with native indices, signed integers, the option monad and association lists.
mod Tests
mod Lists
mod Int
mod Partial
mod Assoc
pub use Tests.*
pub use Lists.*
unfoldable pub use Int.*
unfoldable pub use Partial.*
unfoldable pub use Assoc.*
pub use Prim.Native.Nat.{ℕ, zero, suc, ◌+◌, ◌-◌, ◌*◌, ◌/◌, ◌%◌, ◌^◌, ◌≤◌, ◌<◌}
pub use mathlib.Core.Path.{◌≡◌, refl, sym, ap, ap₂, ◌∙◌}
pub use mathlib.Core.Logic.{◌≢◌, ◌↔◌, ◌⊎◌, inl, inr}
pub use mathlib.Core.Bool.{Bool, true, false, not, ◌&&◌, ◌||◌}
pub use mathlib.Core.Option.{Option, none, some}
pub use mathlib.Core.List.{List, [], ◌∷◌, ◌++◌, map}
pub use native.Mathlib.Omega.{arith}
