-- ===== src/Base.antt =====
-- What every module shares: the libraries' names passed on, the Boolean tests, lists measured by
-- native numbers, texts and bytes as lists of numbers, JavaScript numbers and JSON values.
mod Tests
mod Lists
mod Texts
mod Splits
mod Chunks
mod Numbers
mod Values
unfoldable pub use Tests.*
unfoldable pub use Lists.*
unfoldable pub use Texts.*
unfoldable pub use Splits.*
unfoldable pub use Chunks.*
unfoldable pub use Numbers.*
unfoldable pub use Values.*
pub use Prim.Native.Nat.{ℕ, zero, suc, max, ◌+◌, ◌-◌, ◌*◌, ◌/◌, ◌%◌, ◌^◌, ◌≤◌, ◌<◌}
pub use Prim.Native.String.{String}
pub use mathlib.Core.Path.{◌≡◌, refl, sym, ◌∙◌, ap, ap₂, subst}
pub use mathlib.Core.Logic.{◌≢◌, ◌↔◌, ◌⊎◌, inl, inr}
pub use mathlib.Core.Bool.{Bool, true, false, ◌&&◌, ◌||◌, not}
pub use mathlib.Core.Option.{Option, none, some}
pub use mathlib.Core.List.{List, [], ◌∷◌, ◌++◌, map}
pub use native.Mathlib.Omega.{arith}
