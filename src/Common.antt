-- ===== src/Common.antt =====
-- Names that the other modules share: the libraries', passed on, and those of the children.
mod Tests
mod Lists
mod Fallible
mod Slices
mod Words
pub mod Action
pub mod Bits
pub mod Pigeonhole
pub mod Format
pub mod Choice
pub use Tests.*
pub use Lists.*
unfoldable pub use Lists.{replicate, bytes_eq}
pub use Fallible.*
pub use Slices.*
unfoldable pub use Slices.{slice, overlay, splice}
pub use Words.*
unfoldable pub use Words.{to_le_bytes, from_le_bytes}
pub use Prim.Native.Nat.{ℕ, zero, suc, ◌+◌, ◌-◌, ◌*◌, ◌/◌, ◌%◌, ◌^◌, ◌≤◌, ◌<◌, min}
pub use mathlib.Core.Path.{◌≡◌, refl, sym, ap, ◌∙◌}
pub use mathlib.Core.Logic.{◌≢◌, ◌↔◌, ◌⊎◌, inl, inr}
pub use mathlib.Core.Bool.{Bool, true, false, ◌&&◌, ◌||◌}
pub use mathlib.Core.Option.{Option, none, some}
pub use mathlib.Core.List.{List, [], ◌∷◌, ◌++◌, map}
pub use native.Mathlib.Omega.{arith}
