-- ===== src/Base.antt =====
-- The names that every part shares: the library's, passed on, and those of the children below.
mod Tests
mod Lists
mod Bits
mod Bytes
mod Slices
mod Maps
pub mod Outcome
pub mod Reads
pub mod Decimal
pub mod Text
pub mod Utf8
pub use Tests.*
unfoldable pub use Lists.*
pub use Bits.*
unfoldable pub use Maps.*
pub use Bytes.*
unfoldable pub use Slices.*
pub use Prim.Native.Nat.{ℕ, zero, suc, ◌+◌, ◌-◌, ◌*◌, ◌/◌, ◌%◌, ◌^◌, ◌≤◌, ◌<◌, min, max, bit_or}
pub use mathlib.Core.Path.{◌≡◌, refl, sym, ap, ◌∙◌, subst}
pub use mathlib.Core.Logic.{◌≢◌, ◌↔◌, ◌⊎◌, inl, inr, ite}
pub use mathlib.Core.Bool.{Bool, true, false, not, ◌&&◌, ◌||◌}
pub use mathlib.Core.Option.{Option, none, some}
pub use mathlib.Core.List.{List, [], ◌∷◌, ◌++◌, map, append-nil, append_assoc}
pub use native.Mathlib.Omega.{arith}
unfoldable pub use native.Mathlib.Decide.{dec_lt, dec_le, ℕ_discrete}
