-- ===== src/Base.antt =====
-- The names that the other modules share: those of the libraries, and those of three children.
mod Tests
mod Lists
mod Assoc
pub use Tests.*
pub use Lists.*
unfoldable pub use Assoc.{lookup, insert, erase}
pub use Assoc.{
  lookup-insert, lookup-insert_self, lookup-erase, Unique, insert-Unique, insert-fresh,
  length-erase-le, erase-absent, erase-Unique, erase-present, insert-All, erase-All, lookup-All,
}
pub use Prim.Native.Nat.{ℕ, zero, suc, ◌+◌, ◌-◌, ◌*◌, ◌/◌, ◌%◌, ◌^◌, ◌≤◌, ◌<◌, min, max}
pub use mathlib.Core.Path.{◌≡◌, refl, sym, ap, subst, ◌∙◌}
pub use mathlib.Core.Logic.{◌≢◌, ◌↔◌, ◌⊎◌, inl, inr}
pub use mathlib.Core.Bool.{Bool, true, false, not, ◌&&◌, ◌||◌}
pub use mathlib.Core.Option.{Option, none, some}
pub use mathlib.Core.List.{List, [], ◌∷◌, ◌++◌, map}
pub use native.Mathlib.Omega.{arith}
