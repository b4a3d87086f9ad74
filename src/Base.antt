-- ===== src/Base.antt =====
-- What the modules share: the libraries' names, Boolean tests, lists over the native numbers,
-- texts and the result of a call.
mod Tests
mod Lists
mod Slice
mod Pointwise
mod Texts
mod Results
pub mod Int
pub use Tests.*
pub use Lists.*
unfoldable pub use Slice.*
pub use Pointwise.*
unfoldable pub use Texts.*
unfoldable pub use Results.*
pub use Prim.Native.Nat.{ℕ, zero, suc, ◌+◌, ◌-◌, ◌*◌, ◌/◌, ◌%◌, ◌^◌, ◌≤◌, ◌<◌}
pub use mathlib.Core.Path.{◌≡◌, refl, sym, ap, ◌∙◌}
pub use mathlib.Core.Logic.{◌≢◌, ◌↔◌, ◌⊎◌, inl, inr}
pub use mathlib.Core.Bool.{Bool, true, false, not, ◌&&◌, ◌||◌}
pub use mathlib.Core.Option.{Option, none, some}
pub use mathlib.Core.List.{List, [], ◌∷◌, ◌++◌, map}
pub use native.Mathlib.Omega.{arith}
