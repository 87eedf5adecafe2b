-- ===== src/Prelude.antt =====
-- The names that the other modules share: the libraries', passed on, and those of the children.
pub mod Tests
pub mod Lists
pub mod Texts
pub mod Dicts
pub mod Ints
pub use Prim.Native.Nat.{ℕ, zero, suc, ◌+◌, ◌-◌, ◌≤◌, ◌<◌, min, max}
pub use mathlib.Core.Path.{◌≡◌, refl, sym, ap, ◌∙◌, subst}
pub use mathlib.Core.Logic.{◌≢◌, ◌↔◌, ◌⊎◌, inl, inr}
pub use mathlib.Core.Bool.{Bool, true, false, not, ◌&&◌, ◌||◌}
pub use mathlib.Core.Option.{Option, none, some}
pub use mathlib.Core.List.{List, [], ◌∷◌, ◌++◌, map}
pub use native.Mathlib.Omega.{arith}
pub use Tests.*
pub use Lists.*
pub use Texts.{eq_refl, eq_iff}
unfoldable pub use Texts.{Text, codes, ◌==ₜ◌, starts_with, has_char, mem_text}
pub use Dicts.{lookup-insert, lookup-insert_self, lookup-remove, dict_laws}
unfoldable pub use Dicts.{Dict, lookup, has_key, insert, remove, merge, values, keys}
pub use Ints.{ℤ, pos, negsuc, slice_lem, drop_nil, take_past}
unfoldable pub use Ints.{◌+ℤ◌, at_least_one, below, bound, subscript, slice}
