-- ===== src/Prelude.antt =====
-- The names that the other modules share: the libraries', passed on, and the tests, lists and texts
-- of the children.
mod Tests
mod Lists
mod Texts
pub mod Keys
pub use Tests.*
pub use Lists.*
pub use Texts.{Bytes, codes, equal_iff, equal_refl}
unfoldable pub use Texts.{equal}
pub use Prim.Native.Nat.{ℕ, zero, suc, ◌+◌, ◌-◌, ◌*◌, ◌/◌, ◌%◌, ◌^◌, ◌≤◌, ◌<◌}
pub use Prim.Native.String.{String}
pub use mathlib.Core.Path.{◌≡◌, refl, sym, ap, ◌∙◌, subst}
pub use mathlib.Core.Logic.{◌≢◌, ◌↔◌, ◌⊎◌, inl, inr}
pub use mathlib.Core.Bool.{Bool, true, false, not, ◌&&◌, ◌||◌}
pub use mathlib.Core.Option.{Option, none, some}
pub use mathlib.Core.List.{List, [], ◌∷◌, ◌++◌, map, append_assoc, append-nil}
pub use native.Mathlib.Omega.{arith}
