-- ===== src/Prelude.antt =====
-- Names that the other modules share: the libraries', passed on, and the shared helpers' of the
-- child modules (tests on numbers, lists, integers, results, and the storage interfaces).
mod Tests
mod Lists
pub mod Int
pub mod Result
pub mod Table
pub mod Query
pub mod Rows
pub mod Cache
pub mod Refine
pub use Tests.*
pub use Lists.*
pub use Prim.Native.Nat.{ℕ, zero, suc, ◌+◌, ◌-◌, ◌*◌, ◌/◌, ◌%◌, ◌^◌, ◌≤◌, ◌<◌, min, max}
pub use mathlib.Core.Path.{◌≡◌, refl, sym, ap, ◌∙◌}
pub use mathlib.Core.Logic.{◌≢◌, ◌↔◌, ◌⊎◌, inl, inr}
pub use mathlib.Core.Bool.{Bool, true, false, not, ◌&&◌, ◌||◌}
pub use mathlib.Core.Option.{Option, none, some}
pub use mathlib.Core.List.{List, [], ◌∷◌, ◌++◌}
pub use native.Mathlib.Omega.{arith}
