-- ===== src/Common.antt =====
-- The names that every module shares: the libraries' and those of the children.
mod Words
mod Bits
mod Lists
mod Bytes
mod ConstantTime
mod Congruence
mod Outcomes
mod Updates
pub use Words.*
unfoldable pub use Bits.*
pub use ConstantTime.*
unfoldable pub use Bytes.*
pub use Lists.*
pub use Congruence.*
unfoldable pub use Outcomes.*
pub use Updates.*
pub use Prim.Native.Nat.{ℕ, zero, suc, ◌+◌, ◌-◌, ◌*◌, ◌/◌, ◌%◌, ◌^◌, ◌≤◌, ◌<◌, bit_and, bit_or}
pub use Prim.Native.Nat.{bit_xor}
pub use mathlib.Core.Path.{◌≡◌, refl, sym, ap, ap₂, subst, ◌∙◌, ◌≡⟨◌⟩◌, ◌∎}
pub use mathlib.Core.Logic.{◌≢◌, ◌↔◌, ◌⊎◌, inl, inr}
pub use mathlib.Core.Bool.{Bool, true, false, ◌&&◌, ◌||◌, not}
pub use mathlib.Core.Option.{Option, none, some}
pub use mathlib.Core.List.{List, [], ◌∷◌, ◌++◌, map}
pub use native.Mathlib.Omega.{arith}
