-- ===== src/Prelude.antt =====
-- The names that the other modules share: the libraries', passed on, and those of its children.
-- `Tests` has the Boolean tests and the conditional, `Lists` the lists measured by native numbers, `Search` what is found in them, `Sorting` the stable sort,
-- `Texts` the texts as lists of UTF-16 code units, `Trims` what trimming leaves of them.
mod Tests
mod Lists
mod Search
mod Sorting
mod Texts
mod Trims
pub use Tests.*
pub use Lists.*
pub use Search.*
pub use Sorting.*
unfoldable pub use Texts.*
pub use Trims.*
pub use Prim.Native.Nat.{ℕ, zero, suc, ◌+◌, ◌-◌, ◌*◌, ◌/◌, ◌%◌, ◌^◌, ◌≤◌, ◌<◌, min, max}
pub use Prim.Native.String.{String}
pub use mathlib.Core.Path.{◌≡◌, refl, sym, ap, ◌∙◌}
pub use mathlib.Core.Logic.{◌≢◌, ◌↔◌, ◌⊎◌, inl, inr}
pub use mathlib.Core.Bool.{Bool, true, false, not, ◌&&◌, ◌||◌}
pub use mathlib.Core.Option.{Option, none, some}
pub use mathlib.Core.List.{List, [], ◌∷◌, ◌++◌, map}
pub use native.Mathlib.Omega.{arith}
