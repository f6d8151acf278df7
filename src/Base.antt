-- ===== src/Base.antt =====
-- The names that the other modules share: the libraries' passed on, and those of the children.
pub mod Tests
pub mod Lists
pub mod Classes
pub mod Dict
pub mod Int
pub mod Counting
pub mod Float
pub mod Bits
pub mod Bytes
pub mod Result
pub mod Xor
pub use Tests.*
pub use Lists.*
pub use Classes.*
pub use Counting.*
pub use Prim.Native.Nat.{ℕ, zero, suc, ◌+◌, ◌-◌, ◌*◌, ◌/◌, ◌%◌, ◌^◌, ◌≤◌, ◌<◌}
pub use Prim.Native.String.{String}
pub use mathlib.Core.Path.{◌≡◌, refl, sym, ap, subst, ◌∙◌}
pub use mathlib.Core.Logic.{◌≢◌, ◌↔◌, ◌⊎◌, inl, inr}
pub use mathlib.Core.Bool.{Bool, true, false, ◌&&◌, ◌||◌, not}
pub use mathlib.Core.Option.{Option, none, some}
pub use mathlib.Core.List.{List, [], ◌∷◌, ◌++◌, map}
pub use native.Mathlib.Omega.{arith}
