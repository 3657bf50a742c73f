-- ===== src/Base.antt =====
-- The names that the other modules share: those of the libraries, passed on, Boolean tests on
-- numbers, equality of keys, hash maps, and lists measured by native numbers.
mod Tests
mod Keys
mod Lists
mod Map
pub use Tests.*
pub use Keys.*
pub use Lists.*
unfoldable pub use Map.*
pub use Prim.Native.Nat.{ℕ, zero, suc, ◌+◌, ◌-◌, ◌*◌, ◌/◌, ◌%◌, ◌^◌, ◌≤◌, ◌<◌, min, max}
pub use mathlib.Core.Path.{◌≡◌, refl, sym, ap, ◌∙◌}
pub use mathlib.Core.Logic.{◌≢◌, ◌↔◌, ◌⊎◌, inl, inr}
pub use mathlib.Core.Bool.{Bool, true, false, not, ◌&&◌, ◌||◌}
pub use mathlib.Core.Option.{Option, none, some}
pub use mathlib.Core.List.{List, [], ◌∷◌, ◌++◌, map}
pub use native.Mathlib.Omega.{arith}
