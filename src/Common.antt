-- ===== src/Common.antt =====
-- Names that every module shares: the libraries' names passed on, and the helpers of the
-- children: Boolean tests, integers, lists, keys with a Boolean equality, dictionaries, stable
-- sorting and results.
mod Tests
mod Lists
mod Outcome
pub mod Int
pub mod Decimal
pub mod Key
pub mod Dict
pub mod Sort
pub mod Distinct
pub use Tests.*
pub use Lists.*
pub use Outcome.*
pub use Prim.Native.Nat.{ℕ, zero, suc, ◌+◌, ◌-◌, ◌*◌, ◌/◌, ◌%◌, ◌^◌, ◌≤◌, ◌<◌}
pub use Prim.Native.String.{String}
pub use mathlib.Core.Path.{◌≡◌, refl, sym, ap, ◌∙◌, subst}
pub use mathlib.Core.Logic.{◌≢◌, ◌↔◌, ◌⊎◌, inl, inr}
pub use mathlib.Core.Bool.{Bool, true, false, not, ◌&&◌, ◌||◌}
pub use mathlib.Core.Option.{Option, none, some}
pub use mathlib.Core.List.{List, [], ◌∷◌}
unfoldable pub use mathlib.Core.List.{◌++◌, map}
pub use native.Mathlib.Omega.{arith}
