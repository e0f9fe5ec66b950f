-- ===== src/Base.antt =====
-- The names that the other modules share: the libraries', passed on, and those of the children:
-- Boolean tests, lists, strings as byte lists, error results, signed integers and maps by string.
mod Tests
mod Lists
mod Strings
mod Results
mod Int
mod Assoc
pub use Tests.*
pub use Lists.*
pub use Strings.{Text, is_empty, is_empty_ne, text_eq_iff, text_eq_refl, text_eq_ne}
unfoldable pub use Strings.{text, text_eq}
pub use Results.*
pub use Int.*
pub use Assoc.{find-put, find-drop_key, length-put, length-put_present, length-drop_key}
unfoldable pub use Assoc.{find, put, drop_key}
pub use Prim.Native.Nat.{ℕ, zero, suc, ◌+◌, ◌-◌, ◌*◌, ◌/◌, ◌%◌, ◌^◌, ◌≤◌, ◌<◌}
pub use mathlib.Core.Path.{◌≡◌, refl, sym, ap, ap₂, ◌∙◌, subst}
pub use mathlib.Core.Logic.{◌≢◌, ◌↔◌, ◌⊎◌, inl, inr}
pub use mathlib.Core.Bool.{Bool, true, false, not, ◌&&◌, ◌||◌}
pub use mathlib.Core.Option.{Option, none, some}
pub use mathlib.Core.List.{List, [], ◌∷◌, ◌++◌, map}
pub use native.Mathlib.Omega.{arith}
