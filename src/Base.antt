-- ===== src/Base.antt =====
-- The names that all parts share: those of the libraries, tests on numbers and texts, Python's
-- lists, dictionaries, integers and exceptions.
mod Tests
mod Lists
mod Eq
mod Options
pub mod Bytes
pub mod Decimal
pub mod Utf8
pub mod Dict
pub mod Hex
pub mod Exec
pub use Tests.*
pub use Lists.*
unfoldable pub use Eq.*
pub use Options.*
pub use Prim.Native.Nat.{ℕ, zero, suc, ◌+◌, ◌-◌, ◌*◌, ◌/◌, ◌%◌, ◌^◌, ◌≤◌, ◌<◌}
pub use Prim.Native.String.{String}
pub use mathlib.Core.Path.{◌≡◌, refl, sym, ap, ap₂, ◌∙◌}
pub use mathlib.Core.Logic.{◌≢◌, ◌↔◌, ◌⊎◌, inl, inr}
pub use mathlib.Core.Bool.{Bool, true, false, not, ◌&&◌, ◌||◌}
pub use mathlib.Core.Option.{Option, none, some}
pub use mathlib.Core.List.{List, [], ◌∷◌, ◌++◌, map}
pub use native.Mathlib.Omega.{arith}
