-- ===== src/Prelude.antt =====
-- The names that the other modules share: the libraries', passed on, and those of the children.
-- A C++ `int` is the type ℤ, a `size_t`, a counter or a time is ℕ, a `double` is a type of the
-- interface `Double`.
mod Tests
mod Lists
mod Ints
mod Maps
mod Sorting
mod Doubles
mod Bits
unfoldable pub use Tests.*
unfoldable pub use Lists.*
unfoldable pub use Ints.*
unfoldable pub use Maps.*
unfoldable pub use Sorting.*
pub use Bits.*
pub use Doubles.*
pub use Prim.Native.Nat.{ℕ, zero, suc, ◌+◌, ◌-◌, ◌*◌, ◌/◌, ◌%◌, ◌^◌, ◌≤◌, ◌<◌, min, max}
pub use Prim.Native.String.{String}
pub use mathlib.Core.Path.{◌≡◌, refl, sym, ap, ◌∙◌, subst}
pub use mathlib.Core.Logic.{◌≢◌, ◌↔◌, ◌⊎◌, inl, inr, ite}
pub use mathlib.Core.Bool.{Bool, true, false, not, ◌&&◌, ◌||◌}
pub use mathlib.Core.Option.{Option, none, some}
pub use mathlib.Core.List.{List, [], ◌∷◌, ◌++◌, map, append_assoc, append-nil}
pub use native.Mathlib.Omega.{arith}
unfoldable pub use native.Mathlib.Decide.{dec_lt, dec_le, ℕ_discrete}
