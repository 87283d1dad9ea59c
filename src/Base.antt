-- ===== src/Base.antt =====
-- The names that the models share: the libraries', passed on, and the lemmas of the children on
-- Boolean tests, on lists as C arrays, on searches through a table for its first fitting
-- slot, and on lists compared element by element.
mod Tests
mod Lists
mod Find
mod Tables
mod Relate
pub use Tests.*
pub use Lists.*
pub use Find.*
unfoldable pub use Tables.*
pub use Relate.*
pub use Prim.Native.Nat.{ℕ, zero, suc, ◌+◌, ◌-◌, ◌*◌, ◌/◌, ◌%◌, ◌^◌, ◌≤◌, ◌<◌, min}
pub use mathlib.Core.Path.{◌≡◌, refl, sym, ap, ◌∙◌}
pub use mathlib.Core.Logic.{◌≢◌, ◌↔◌, ◌⊎◌, inl, inr}
pub use mathlib.Core.Bool.{Bool, true, false, not, ◌&&◌, ◌||◌}
pub use mathlib.Core.Option.{Option, none, some}
pub use mathlib.Core.List.{List, [], ◌∷◌, ◌++◌, map, append-nil, append_assoc}
pub use native.Mathlib.Omega.{arith}
