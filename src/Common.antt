-- ===== src/Common.antt =====
-- What the other modules share: the libraries' names passed on, Boolean tests on the native
-- numbers, lists measured by native numbers, and the signed 64-bit integers of Go.
pub mod Tests
pub mod Lists
pub mod Ordering
pub mod Int
pub use Tests.*
pub use Lists.*
pub use Ordering.{
  Sorted, filter-kept, filter-All, All-filter, order_by-All, All-order_by, order_by-Sorted,
}
unfoldable pub use Ordering.{order_by, insert_by}
pub use Int.{
  ℤ, pos, negsuc, pos_part, neg_part, sub_ℕ, ◌≤ℤ◌, ◌<ℤ◌, ltb_ℤ, leb_ℤ, eqb_ℤ, eqb_ℤ_iff,
  wrap64_self, wrap64-add, sub_ℕ_parts, IsInt64, int_laws,
}
unfoldable pub use Int.{wrap64, ◌+ℤ◌, ◌-ℤ◌, ◌*ℤ◌}
pub use Prim.Native.Nat.{ℕ, zero, suc, ◌+◌, ◌-◌, ◌*◌, ◌/◌, ◌%◌, ◌^◌, ◌≤◌, ◌<◌, max, min}
pub use Prim.Native.String.{String}
pub use mathlib.Core.Path.{◌≡◌, refl, sym, ap, ◌∙◌, subst}
pub use mathlib.Core.Logic.{◌≢◌, ◌↔◌, ◌⊎◌, inl, inr}
pub use mathlib.Core.Bool.{Bool, true, false, ◌&&◌, ◌||◌, not}
pub use mathlib.Core.Option.{Option, none, some}
pub use mathlib.Core.List.{List, [], ◌∷◌, ◌++◌, map}
pub use native.Mathlib.Omega.{arith}
pub use text.Mathlib.Text.{◌==◌ as str_eq}
pub use text.Mathlib.TextEquality.{eq_iff as str_eq_iff}
