-- ===== src/Base.antt =====
-- The names that every part shares: the libraries', passed on, and those of the children: tests on
-- numbers, lists, C integers, C strings, the commands of a process and counts of
-- handles.
mod Tests
mod Lists
mod Int
mod Chars
mod Flow
mod Handles
pub mod PowerOfTwo
pub mod Words
pub mod Decimal
pub mod Strings
unfoldable pub use Tests.*
unfoldable pub use Lists.*
unfoldable pub use Int.*
unfoldable pub use Chars.*
unfoldable pub use Flow.*
unfoldable pub use Handles.*
pub use Prim.Native.Nat.{ℕ, zero, suc, ◌+◌, ◌-◌, ◌*◌, ◌/◌, ◌%◌, ◌^◌, ◌≤◌, ◌<◌, bit_and}
pub use mathlib.Core.Path.{◌≡◌, refl, sym, ap, ◌∙◌}
pub use mathlib.Core.Logic.{◌≢◌, ◌↔◌, ◌⊎◌, inl, inr}
pub use mathlib.Core.Bool.{Bool, true, false, not, ◌&&◌, ◌||◌}
pub use mathlib.Core.Option.{Option, none, some}
pub use mathlib.Core.List.{List, [], ◌∷◌, ◌++◌, map}
pub use native.Mathlib.Omega.{arith}
