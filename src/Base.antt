-- ===== src/Base.antt =====
-- The names that the other modules share: the libraries', passed on, and those of the children.
mod Tests
mod Lists
mod Table
mod Quantifiers
mod Sorting
mod Unique
mod Texts
pub mod Split
pub use Quantifiers.*
pub use Sorting.{ascending_by, sort_by-ascending, sort_by-append}
pub use Unique.{count-select, none_or_one, select-all, exactly_one}
pub use Tests.*
unfoldable pub use Split.{cut, split}
pub use Lists.*
unfoldable pub use Texts.*
unfoldable pub use Table.{find, update_where, delete_where}
pub use Table.{
  find-eq-some, find-update_where, all-update_where, find-delete_where, select-update_where,
  any-update_where, select-update_where_none,
}
pub use Prim.Native.Nat.{ℕ, zero, suc, ◌+◌, ◌-◌, ◌*◌, ◌%◌, ◌≤◌, ◌<◌}
pub use Prim.Native.String.{String}
pub use mathlib.Core.Path.{◌≡◌, refl, sym, ap, ◌∙◌, subst}
pub use mathlib.Core.Logic.{◌≢◌, ◌↔◌, ◌⊎◌, inl, inr}
pub use mathlib.Core.Bool.{Bool, true, false, ◌&&◌, ◌||◌, not}
pub use mathlib.Core.Option.{Option, none, some}
pub use mathlib.Core.List.{List, [], ◌∷◌, ◌++◌, map}
pub use native.Mathlib.Omega.{arith}
