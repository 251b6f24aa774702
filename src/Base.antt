-- ===== src/Base.antt =====
-- The names that the other modules share: the libraries', passed on, and those of the children.
mod Tests
mod Results
mod Lists
mod Strings
mod Sorting
mod Maps
mod Sets
pub mod Int
mod Clock
pub use Tests.*
pub use Clock.{Uuid, Time}
unfoldable pub use Clock.{time_sub}
pub use Results.*
pub use Lists.*
pub use Strings.{Text, codes, text_eq_iff, texts_eq_iff, text_lt_trans, text_lt_irrefl}
pub use Sets.{IsUnique, avoid_members, avoid_texts}
pub use Maps.{Map, keys, is_some, lookup-insert, lookup-erase, lookup-keys, lookup-entries}
unfoldable pub use Maps.{lookup, insert, erase}
pub use Sorting.{
  IsAscending, is_distinct, text_eq_refl, text_lt_total, contains_text-insert, contains_text-sort,
  sort-IsAscending, map-sort_by, All-sort_by, ascending-is_distinct,
}
unfoldable pub use Sorting.{insert_by, sort_by}
unfoldable pub use Strings.{
  text_eq, texts_eq, text_lt, is_space, trim_space, drop_spaces, utf8_len, byte_len, contains_text,
  contains_any, member, has_prefix, has_suffix, drop_char, trim_right, drop, drop_last, take,
}
pub use Prim.Native.Nat.{ℕ, zero, suc, ◌+◌, ◌-◌, ◌*◌, ◌/◌, ◌%◌, ◌^◌, ◌≤◌, ◌<◌}
pub use mathlib.Core.Path.{◌≡◌, refl, sym, ap, ◌∙◌}
pub use mathlib.Core.Logic.{◌≢◌, ◌↔◌, ◌⊎◌, inl, inr}
pub use mathlib.Core.Bool.{Bool, true, false, not, ◌&&◌, ◌||◌}
pub use mathlib.Core.Option.{Option, none, some}
pub use mathlib.Core.List.{List, [], ◌∷◌, ◌++◌, map}
pub use native.Mathlib.Omega.{arith}
