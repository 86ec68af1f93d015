-- ===== src/Base.antt =====
-- The names that every other module shares: the libraries', passed on, with the Boolean tests,
-- the conditional and the case lemmas that the components use.
mod Tests
pub mod Effects
pub mod Lists
pub mod Int
pub use Tests.*
pub use Effects.*
unfoldable pub use Effects.{for_each, map_each}
unfoldable pub use Lists.{first, select, modify_first, modify_all, remove_first}
pub use Lists.{IsUnique}
pub use Prim.Native.Nat.{ℕ, zero, suc, ◌+◌, ◌-◌, ◌*◌, ◌≤◌, ◌<◌}
pub use Prim.Native.String.{String}
pub use mathlib.Core.Path.{◌≡◌, refl, sym, ap, subst, ◌∙◌}
pub use mathlib.Core.Logic.{◌≢◌, ◌⊎◌, inl, inr}
pub use mathlib.Core.Bool.{Bool, true, false, not, ◌&&◌, ◌||◌}
pub use mathlib.Core.Option.{Option, none, some}
pub use mathlib.Core.List.{List, [], ◌∷◌, ◌++◌, map}
pub use native.Mathlib.Omega.{arith}
