-- ===== src/Base.antt =====
-- The names that every module shares: the libraries', passed on, and those of the children.
mod Tests
mod Lists
mod Text
mod Pieces
mod Maps
mod Int
pub use Tests.*
pub use Lists.*
pub use Text.*
pub use Pieces.*
pub use Maps.*
pub use Int.*
unfoldable pub use Text.{
  eq_str, has_prefix, contains, trim_prefix, is_space, trim_left, trim_space, split, split_crlf,
  fields_from, fields, index_byte, cut, join_byte,
}
unfoldable pub use Maps.{lookup, insert, remove, lookup_str}
unfoldable pub use Int.{wrap64, add64, sub64, parse_int}
pub use Prim.Native.Nat.{ℕ, zero, suc, ◌+◌, ◌-◌, ◌*◌, ◌/◌, ◌%◌, ◌^◌, ◌≤◌, ◌<◌}
pub use Prim.Native.String.{String}
pub use mathlib.Core.Path.{◌≡◌, refl, sym, ap, ◌∙◌}
pub use mathlib.Core.Logic.{◌≢◌, ◌↔◌, ◌⊎◌, inl, inr}
pub use mathlib.Core.Bool.{Bool, true, false, not, ◌&&◌, ◌||◌}
pub use mathlib.Core.Option.{Option, none, some}
pub use mathlib.Core.List.{List, [], ◌∷◌, ◌++◌, map, append-nil, append_assoc}
pub use native.Mathlib.Omega.{arith}
