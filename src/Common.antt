-- ===== src/Common.antt =====
-- The names that the other modules share: the libraries', passed on, the tests on numbers and texts,
-- the numbers of JavaScript, and the results of code that throws.
pub mod Tests
pub mod Lists
pub mod Number
pub mod JsonValue
pub mod Int
pub mod Results
pub use Tests.*
pub use Lists.*
pub use Int.*
pub use JsonValue.*
pub use Number.*
pub use Results.*
pub use Prim.Native.Nat.{ℕ, zero, suc, ◌+◌, ◌-◌, ◌*◌, ◌/◌, ◌%◌, ◌≤◌, ◌<◌, min, max}
pub use Prim.Native.String.{String}
pub use mathlib.Core.Path.{◌≡◌, refl, sym, ap, ◌∙◌}
pub use mathlib.Core.Logic.{◌≢◌, ◌↔◌, ◌⊎◌, inl, inr}
pub use mathlib.Core.Bool.{Bool, true, false, not, ◌&&◌, ◌||◌}
pub use mathlib.Core.Option.{Option, none, some}
pub use mathlib.Core.List.{List, [], ◌∷◌, ◌++◌, map}
pub use native.Mathlib.Omega.{arith}
