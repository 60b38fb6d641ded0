-- ===== src/Prelude.antt =====
-- The names that the other modules share: the libraries', passed on, and those of the children:
-- Boolean tests, lists under native lengths, association lists, text, errors.
mod Tests
mod Lists
mod Maps
mod Errors
pub mod Exec
mod Words
mod Sort
mod Text
mod TextLaws
mod TextParts
pub use Tests.*
pub use Lists.*
unfoldable pub use Lists.{contains, texts_eq}
unfoldable pub use Maps.{lookup, insert, remove, contains_key, update, or_nil}
pub use Maps.{
  Assoc, keys, lookup-insert, lookup-remove, lookup-update, contains_key-eq-true, assoc_laws,
}
pub use Errors.*
pub use Words.*
unfoldable pub use Sort.{place, sort}
unfoldable pub use Text.{join, strip_star, strip_prefix, has_prefix, has_part, to_string, take_text}
pub use Text.{concat}
pub use TextParts.{is_clear, has_part-append, has_part_of_prefix, append_append}
pub use TextLaws.{strip_star_iff, strip_prefix_iff, has_prefix_iff}
pub use Prim.Native.Nat.{ℕ, zero, suc, ◌+◌, ◌-◌, ◌*◌, ◌/◌, ◌%◌, ◌^◌, ◌≤◌, ◌<◌, min, max}
pub use Prim.Native.String.{String}
pub use Prim.Native.String.{◌++◌ as ◌<>◌}
pub use mathlib.Core.Path.{◌≡◌, refl, sym, ap, ◌∙◌, subst}
pub use mathlib.Core.Logic.{◌≢◌, ◌↔◌, ◌⊎◌, inl, inr, ⊎_elim}
pub use mathlib.Core.Bool.{Bool, true, false, not, ◌&&◌, ◌||◌}
pub use mathlib.Core.Option.{Option, none, some}
pub use mathlib.Core.List.{List, [], ◌∷◌, ◌++◌, map}
pub use native.Mathlib.Omega.{arith}
pub use text.Mathlib.Text.{◌==◌}
pub use text.Mathlib.TextEquality.{eq_iff}
pub use text.Mathlib.TextPositions.{eq_refl}
