-- ===== src/Prelude.antt =====
-- The names that all modules share: the libraries', passed on, and those of two children.
mod Tests
mod Lists
mod Dict
mod Order
mod OrderedMap
mod Sorting
pub use Tests.*
pub use Lists.*
unfoldable pub use Dict.{contains_text, emplace, find_key}
pub use Dict.{
  AllDistinct, values_of, All-emplace, contains_text-nil, contains_text-cons, find_key-emplace,
}
pub use Sorting.{
  descending, descending-IsOrder, by_parts, by_parts-IsOrder, precedes, IsSortedBy, at_most_trans,
  at_most_of_not_before, at_most_of_before,
}
pub use Order.{opposite, IsOrder, numbers-IsOrder, texts-IsOrder}
unfoldable pub use OrderedMap.{lookup_key}
pub use OrderedMap.{
  is_lt, is_eq, is_gt, ordering_cases, IsSorted, lookup-nil, lookup-below, All-below, lookup-head,
  lookup-front, lookup-hidden, lookup-rest, sorted_ext, lookup-cons, lookup-swap, or_else,
  or_else-none, or_else_assoc,
}
pub use Prim.Native.Nat.{ℕ, zero, suc, ◌+◌, ◌-◌, ◌*◌, ◌/◌, ◌%◌, ◌≤◌, ◌<◌}
pub use Prim.Native.String.{String, ◌++◌ as ◌<>◌}
pub use mathlib.Core.Path.{◌≡◌, refl, sym, ap, ◌∙◌}
pub use mathlib.Core.Logic.{◌≢◌, ◌↔◌, ◌⊎◌, inl, inr}
pub use mathlib.Core.Bool.{Bool, true, false, not, ◌&&◌, ◌||◌}
pub use mathlib.Core.Option.{Option, none, some}
pub use mathlib.Core.List.{List, [], ◌∷◌, ◌++◌, map, append_assoc, append-nil, reverse}
pub use native.Mathlib.Omega.{arith}
pub use text.Mathlib.Text.{◌==◌ as str_eq}
pub use text.Mathlib.TextEquality.{eq_iff}
pub use text.Mathlib.TextPositions.{eq_refl}
