-- ===== src/Prelude.antt =====
-- The names that the modules share: those of the libraries, passed on, and those of the children
-- below. `Int` has the signed numbers, `Sort` the stable sort behind `sorted`, `Dict` the
-- insertion-ordered dictionary, `Result` the functions that may raise, and `Float` what the code
-- does with a Python `float`.
mod Tests
mod Lists
pub mod Int
pub mod Result
pub mod Sort
pub mod Order
pub mod Words
pub mod Dict
pub mod Keys
pub mod Float
pub mod Day
pub mod Units
pub mod Texts
pub use Tests.*
pub use Lists.*
pub use Prim.Native.Nat.{ℕ, zero, suc, ◌+◌, ◌-◌, ◌*◌, ◌/◌, ◌%◌, ◌≤◌, ◌<◌}
pub use Prim.Native.String.{String}
pub use mathlib.Core.Path.{◌≡◌, refl, sym, ap, ap₂, ◌∙◌, subst, fun_ext}
pub use mathlib.Core.Logic.{◌≢◌, ◌⊎◌, inl, inr, ◌↔◌}
pub use mathlib.Core.Bool.{Bool, true, false, not, ◌&&◌, ◌||◌}
pub use mathlib.Core.Option.{Option, none, some}
pub use mathlib.Core.List.{List, [], ◌∷◌, ◌++◌, map}
pub use native.Mathlib.Omega.{arith}
