-- ===== src/Base.antt =====
-- The names that the other modules share: the libraries', passed on, and those of the children.
mod Tests
mod Lists
mod Int
mod Strings
mod Decimal
mod Format
mod Runes
mod Trimming
pub use Tests.*
pub use Lists.*
pub use Int.*
unfoldable pub use Decimal.{itoa, join}
unfoldable pub use Format.{itoa_ℤ, atoi, atoi_error, quoted, to_upper}
unfoldable pub use Runes.{
  continuation, tail_size, runes_from, runes, rune_bytes, text_of, rune_count, is_white, words,
  fields,
}
pub use Runes.{in_word, onto_first}
pub use Format.{is_digit}
pub use Trimming.{trim_space_twice, trim_space-lower, to_lower_twice}
pub use Strings.{Text, is_space, to_lower_byte, text_eq_iff}
unfoldable pub use Strings.{bytes, text_eq, drop_spaces, trim_space, to_lower, has_prefix}
pub use Prim.Native.Nat.{ℕ, zero, suc, ◌+◌, ◌-◌, ◌*◌, ◌/◌, ◌%◌, ◌^◌, ◌≤◌, ◌<◌, min, max}
pub use mathlib.Core.Path.{◌≡◌, refl, sym, ap, ◌∙◌, subst}
pub use mathlib.Core.Logic.{◌≢◌, ◌↔◌, ◌⊎◌, inl, inr}
pub use mathlib.Core.Bool.{Bool, true, false, not, ◌&&◌, ◌||◌}
pub use mathlib.Core.Option.{Option, none, some}
pub use mathlib.Core.List.{List, [], ◌∷◌, ◌++◌, map, append-nil, append_assoc}
pub use native.Mathlib.Omega.{arith}
