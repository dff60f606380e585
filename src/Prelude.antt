-- ===== src/Prelude.antt =====
-- The names that the other modules share: the libraries', passed on, and those of the children.
pub mod Tests
pub mod Lists
pub mod Equality
pub mod Maps
pub mod Sort
pub mod Quantifiers
pub use Tests.*
pub use Equality.{PartialEq, ◌==◌, nat_eq, Bytes, bytes_eq, bytes_beq_iff, codes}
unfoldable pub use Equality.{bytes_beq}
unfoldable pub use Lists.{select, any, find}
pub use Lists.{
  length, get_elem?, get_or, take, drop, length-append, take-append-drop, length-take, length-drop,
  All, Any, Pairs,
}
pub use Prim.Native.Nat.{ℕ, zero, suc, ◌+◌, ◌-◌, ◌*◌, ◌/◌, ◌%◌, ◌≤◌, ◌<◌, min, max}
pub use mathlib.Core.Path.{◌≡◌, refl, sym, ap, ◌∙◌, subst}
pub use mathlib.Core.Logic.{◌≢◌, ◌↔◌, ◌⊎◌, inl, inr}
pub use mathlib.Core.Bool.{Bool, true, false, not, ◌&&◌, ◌||◌}
pub use mathlib.Core.Option.{Option, none, some}
pub use mathlib.Core.List.{List, [], ◌∷◌, ◌++◌, map, append-nil, append_assoc}
pub use native.Mathlib.Omega.{arith}
