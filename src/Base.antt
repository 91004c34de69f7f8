-- ===== src/Base.antt =====
-- The names that every module shares: the libraries', passed on, and the Go notions of the children.
mod Tests
mod Lists
mod Dict
mod Entries
mod Float
mod Int
pub use Tests.*
pub use Lists.*
unfoldable pub use Lists.{take_at}
unfoldable pub use Dict.{Map, lookup, insert, delete, update_all}
pub use Dict.{
  lookup-insert, lookup-insert_self, lookup-delete, lookup-delete_self, lookup-update_all,
}
pub use Dict.{map_laws}
pub use Entries.*
pub use Float.*
unfoldable pub use Float.{is_finite, is_zero_float}
pub use Int.*
unfoldable pub use Int.{wrap64, scale, time_sub}
pub use Prim.Native.Nat.{ℕ, zero, suc, ◌+◌, ◌-◌, ◌*◌, ◌/◌, ◌%◌, ◌^◌, ◌≤◌, ◌<◌}
pub use Prim.Native.String.{String, ◌++◌ as append_text}
pub use text.Mathlib.Text.{◌==◌}
pub use text.Mathlib.TextEquality.{eq_iff}
pub use text.Mathlib.TextPositions.{eq_refl}
pub use mathlib.Core.Path.{◌≡◌, refl, sym, ap, subst, ◌∙◌, fun_ext}
pub use mathlib.Core.Logic.{◌≢◌, ◌↔◌, ◌⊎◌, inl, inr}
pub use mathlib.Core.Bool.{Bool, true, false, not, ◌&&◌, ◌||◌}
pub use mathlib.Core.Option.{Option, none, some}
pub use mathlib.Core.List.{List, [], ◌∷◌, ◌++◌, map}
pub use native.Mathlib.Omega.{arith}
