-- ===== src/Base.antt =====
-- Names that the modules of every component share: the libraries' names, Boolean tests on native
-- numbers, C arrays as lists, `size_t` arithmetic, and the ways in which a C call can end.
mod Tests
mod Lists
mod Words
mod Calls
mod Bytes
mod Arrays
pub mod Bits
pub use Tests.*
pub use Lists.*
pub use Words.*
pub use Calls.*
pub use Bytes.*
pub use Arrays.*
pub use Prim.Native.Nat.{ℕ, zero, suc, ◌+◌, ◌-◌, ◌*◌, ◌/◌, ◌%◌, ◌^◌, ◌≤◌, ◌<◌, min}
pub use mathlib.Core.Path.{◌≡◌, refl, sym, ap, ◌∙◌}
pub use mathlib.Core.Logic.{◌≢◌, ◌↔◌, ◌⊎◌, inl, inr}
pub use mathlib.Core.Bool.{Bool, true, false, not, ◌&&◌, ◌||◌}
pub use mathlib.Core.Option.{Option, none, some}
pub use mathlib.Core.List.{List, [], ◌∷◌, ◌++◌, map, append-nil, append_assoc}
pub use native.Mathlib.Omega.{arith}
unfoldable pub use native.Mathlib.Decide.{dec_lt, ℕ_discrete}
