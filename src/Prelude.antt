-- ===== src/Prelude.antt =====
-- The names that every part shares: the libraries', passed on, and those of the children.
-- Python's `==`, `in`, dicts and stable `sort` are modelled here.
mod Tests
mod Equality
mod Lists
mod Text
pub mod Dict
pub mod Sorting
pub mod Json
pub mod Parts
pub mod Ranking
pub mod Results
pub use Tests.*
unfoldable pub use Equality.*
pub use Lists.*
unfoldable pub use Text.*
pub use Prim.Native.Nat.{ℕ, zero, suc, ◌+◌, ◌-◌, ◌*◌, ◌/◌, ◌%◌, ◌≤◌, ◌<◌}
pub use Prim.Native.String.{String}
pub use mathlib.Core.Path.{◌≡◌, refl, sym, ap, ap₂, subst, ◌∙◌}
pub use mathlib.Core.Logic.{◌≢◌, ◌↔◌, ◌⊎◌, inl, inr}
pub use mathlib.Core.Bool.{Bool, true, false, not, ◌&&◌, ◌||◌}
pub use mathlib.Core.Option.{Option, none, some, some-injective}
pub use mathlib.Core.List.{List, [], ◌∷◌, ◌++◌, map, append-nil, append_assoc, map-append}
pub use native.Mathlib.Omega.{arith}
