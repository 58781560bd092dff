-- ===== src/Base.antt =====
-- The names that every module shares: the libraries' names passed on, and those of the children.
mod Bools
mod Lists
mod Texts
mod Dicts
mod Sorts
mod Maps
pub mod Sorted
pub use Bools.*
pub use Lists.*
unfoldable pub use Dicts.*
unfoldable pub use Sorts.*
pub use Maps.*
unfoldable pub use Texts.{Text, codes, text_eq, text_lt}
pub use Texts.{text_eq→eq, text_eq_refl, text_eq_iff, text_lt_asymm, text_lt_cotrans, text_lt_total}
pub use Prim.Native.Nat.{ℕ, zero, suc, ◌+◌, ◌-◌, ◌*◌, ◌/◌, ◌%◌, ◌^◌, ◌≤◌, ◌<◌, min, max}
pub use mathlib.Core.Path.{◌≡◌, refl, sym, ap, ◌∙◌, subst}
pub use mathlib.Core.Logic.{◌≢◌, ◌↔◌, ◌⊎◌, inl, inr}
pub use mathlib.Core.Bool.{Bool, true, false, not, ◌&&◌, ◌||◌}
pub use mathlib.Core.Option.{Option, none, some}
pub use mathlib.Core.List.{List, [], ◌∷◌, ◌++◌, map}
pub use native.Mathlib.Omega.{arith}
