-- ===== src/Prelude.antt =====
-- The names that the other modules share: the libraries', passed on, with the Boolean tests on
-- numbers and the lists indexed by numbers of `Tests` and `Lists`, and the runs of `Partial`
-- that may go wrong, and the lists of handles of `Handles`. `Slices` holds the lemmas on arrays cut into pieces. `Int` holds the
-- signed integers.
mod Tests
mod Lists
mod Partial
mod Handles
pub mod Slices
pub mod Int
pub use Tests.*
pub use Lists.*
pub use Partial.*
pub use Handles.*
pub use Prim.Native.Nat.{ℕ, zero, suc, ◌+◌, ◌-◌, ◌*◌, ◌/◌, ◌%◌, ◌^◌, ◌≤◌, ◌<◌}
pub use Prim.Native.Nat.{bit_and, bit_or}
pub use mathlib.Core.Path.{◌≡◌, refl, sym, ap, ◌∙◌}
pub use mathlib.Core.Logic.{◌≢◌, ◌↔◌, ◌⊎◌, inl, inr}
pub use mathlib.Core.Bool.{Bool, true, false, not, ◌&&◌, ◌||◌}
pub use mathlib.Core.Option.{Option, none, some}
pub use mathlib.Core.List.{List, [], ◌∷◌, ◌++◌, map}
pub use native.Mathlib.Omega.{arith}
