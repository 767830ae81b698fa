-- ===== src/Base.antt =====
-- Names shared by all modules: the libraries' own, passed on, and those of the children: Boolean
-- tests on numbers, lists measured by native numbers, byte strings, and results with errors.
mod Tests
mod Lists
mod ByteStrings
mod Results
pub mod Map
pub mod Order
pub mod FilePath
pub mod Text
pub mod Int64
pub mod Decimal
pub mod Runes
pub use Tests.*
pub use Lists.*
unfoldable pub use ByteStrings.*
pub use Results.*
pub use Prim.Native.Nat.{ℕ, zero, suc, ◌+◌, ◌-◌, ◌*◌, ◌/◌, ◌%◌, ◌^◌, ◌≤◌, ◌<◌}
pub use mathlib.Core.Path.{◌≡◌, refl, sym, ap, ◌∙◌, subst, subst⁻¹}
pub use mathlib.Core.Logic.{◌≢◌, ◌↔◌, ◌⊎◌, inl, inr}
pub use mathlib.Core.Bool.{Bool, true, false, not, ◌&&◌, ◌||◌}
pub use mathlib.Core.Option.{Option, none, some}
pub use mathlib.Core.List.{List, [], ◌∷◌, ◌++◌, map, append-nil, append_assoc}
pub use native.Mathlib.Omega.{arith}
