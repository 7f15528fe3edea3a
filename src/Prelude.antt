-- ===== src/Prelude.antt =====
-- The names that the other modules share: the libraries', passed on, and those of the children.
mod Tests
mod Lists
mod Strings
mod Saturating
pub mod Maps
pub mod Slices
pub mod Ordered
pub use Tests.*
pub use Lists.*
unfoldable pub use Strings.{text_eq, len_utf8, len, to_ascii_lowercase, eq_ignore_ascii_case}
pub use Strings.{Text, text, text_eq_refl, text_eq_sound, text_eq_iff, opt_text_eq, ascii_lower}
unfoldable pub use Saturating.{saturating_add, checked_add}
pub use Saturating.{u64_max, saturating_add_le, saturating_add_assoc, saturating_add_exact}
pub use Prim.Native.Nat.{ℕ, zero, suc, ◌+◌, ◌-◌, ◌*◌, ◌/◌, ◌%◌, ◌^◌, ◌≤◌, ◌<◌, min, max}
pub use mathlib.Core.Path.{◌≡◌, refl, sym, ap, ◌∙◌, subst}
pub use mathlib.Core.Logic.{◌≢◌, ◌↔◌, ◌⊎◌, inl, inr}
pub use mathlib.Core.Bool.{Bool, true, false, not, ◌&&◌, ◌||◌}
pub use mathlib.Core.Option.{Option, none, some}
pub use mathlib.Core.List.{List, [], ◌∷◌, ◌++◌, map, reverse}
pub use native.Mathlib.Omega.{arith}
