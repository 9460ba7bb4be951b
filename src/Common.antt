-- ===== src/Common.antt =====
-- The names that the other modules share: the libraries', passed on, and those of the children.
mod Tests
mod Lists
mod HashMaps
mod HashSets
mod Options
pub use Tests.*
pub use Lists.*
pub use Options.*
unfoldable pub use HashSets.{insert, discard, discard_all}
pub use HashSets.{HashSet, contains, contains-insert, contains-discard, contains-discard_all}
unfoldable pub use HashMaps.{HashMap, get, put, erase, has}
pub use HashMaps.{get-empty, get-put, get-erase, Distinct, put-Distinct, erase-Distinct}
pub use Prim.Native.Nat.{ℕ, zero, suc, ◌+◌, ◌-◌, ◌*◌, ◌/◌, ◌%◌, ◌^◌, ◌≤◌, ◌<◌}
pub use Prim.Native.String.{String}
pub use mathlib.Core.Path.{◌≡◌, refl, sym, ap, ◌∙◌}
pub use mathlib.Core.Logic.{◌≢◌, ◌↔◌, ◌⊎◌, inl, inr}
pub use mathlib.Core.Bool.{Bool, true, false, ◌&&◌, ◌||◌, not}
pub use mathlib.Core.Option.{Option, none, some}
pub use mathlib.Core.List.{List, [], ◌∷◌, ◌++◌, map}
pub use native.Mathlib.Omega.{arith}
