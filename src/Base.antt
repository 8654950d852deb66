-- ===== src/Base.antt =====
-- The names that the other modules share: the libraries', passed on, and those of five children.
mod Tests
mod Equality
mod Lists
mod Members
mod OrderedSet
unfoldable pub use Tests.*
unfoldable pub use Equality.*
unfoldable pub use Lists.*
unfoldable pub use Members.*
unfoldable pub use OrderedSet.*
pub use Prim.Native.Nat.{ℕ, zero, suc, ◌+◌, ◌-◌, ◌*◌, ◌/◌, ◌%◌, ◌^◌, ◌≤◌, ◌<◌, max}
pub use Prim.Native.String.{String}
pub use mathlib.Core.Path.{◌≡◌, refl, sym, ap, ◌∙◌, subst, fun_ext}
pub use mathlib.Core.Logic.{◌≢◌, ◌↔◌, ◌⊎◌, inl, inr}
pub use mathlib.Core.Bool.{Bool, true, false, not, ◌&&◌, ◌||◌}
pub use mathlib.Core.Option.{Option, none, some}
pub use mathlib.Core.List.{List, [], ◌∷◌, ◌++◌, map, append-nil, append_assoc}
pub use native.Mathlib.Omega.{arith}
