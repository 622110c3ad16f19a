-- ===== src/Base.antt =====
-- The names that the other modules share: the libraries', passed on, Boolean tests, vectors as
-- lists, outcomes of fallible code, and machine integers.
mod Tests
mod Lists
mod Results
mod Machine
mod Loops
pub use Tests.*
pub use Lists.*
unfoldable pub use Results.*
unfoldable pub use Loops.*
unfoldable pub use Machine.*
pub use Prim.Native.Nat.{ℕ, zero, suc, ◌+◌, ◌-◌, ◌*◌, ◌/◌, ◌%◌, ◌^◌, ◌≤◌, ◌<◌, max}
pub use mathlib.Core.Path.{◌≡◌, refl, sym, ap, ◌∙◌, subst}
pub use mathlib.Core.Logic.{◌≢◌, ◌↔◌, ◌⊎◌, inl, inr}
pub use mathlib.Core.Bool.{Bool, true, false, ◌&&◌, ◌||◌, not}
pub use mathlib.Core.Option.{Option, none, some}
pub use mathlib.Core.List.{List, [], ◌∷◌, ◌++◌, reverse, append_assoc, append-nil, reverse-cons}
pub use native.Mathlib.Omega.{arith}
