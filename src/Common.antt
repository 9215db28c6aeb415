-- ===== src/Common.antt =====
-- The names that every module of the development shares: the libraries', passed on, and those of
-- the children (tests and branching, lists measured by native numbers, dictionaries).
mod Tests
mod Lists
pub mod Dict
pub mod Float
pub mod Int
pub mod Value
pub mod Case
mod Text
pub mod Strip
pub use Tests.*
pub use Lists.*
unfoldable pub use Strip.{strip}
unfoldable pub use Text.{String_discrete, Pair_discrete}
pub use Prim.Native.Nat.{
  ℕ, zero, suc, ◌+◌, ◌-◌, ◌*◌, ◌/◌, ◌%◌, ◌^◌, ◌≤◌, ◌<◌, min, max, compare, Ordering,
}
pub use Prim.Native.String.{String}
pub use mathlib.Core.Path.{◌≡◌, refl, sym, ap, ◌∙◌, subst}
pub use mathlib.Core.Logic.{◌≢◌, ◌↔◌, ◌⊎◌, inl, inr, ite, if_pos, if_neg}
pub use mathlib.Core.Bool.{Bool, true, false, not, ◌&&◌, ◌||◌}
pub use mathlib.Core.Option.{Option, none, some}
pub use mathlib.Core.List.{List, [], ◌∷◌, ◌++◌, map, append-nil, append_assoc}
pub use native.Mathlib.Omega.{arith}
unfoldable pub use native.Mathlib.Decide.{ℕ_discrete}
pub use text.Mathlib.Text.{◌==◌ as str_eq}
pub use text.Mathlib.TextEquality.{eq_iff}
