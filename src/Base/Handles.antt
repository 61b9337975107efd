-- ===== src/Base/Handles.antt =====
-- How many open handles have a number, as a function of the number.
use Prim.Native.Nat.{ℕ, ◌+◌, ◌-◌}
use mathlib.Core.Path.{◌≡◌}
use mathlib.Core.Option.{Option, none, some}
use native.Mathlib.Omega.{arith}
use winservice.Base.Tests.{◌==◌, if◌then◌else◌}

abbrev pub plus : ℕ → (ℕ → ℕ) → ℕ → ℕ
plus h f a = if a == h then f a + 1 else f a

abbrev pub minus : ℕ → (ℕ → ℕ) → ℕ → ℕ
minus h f a = if a == h then f a - 1 else f a

-- A handle that a call returned, where it returned one, is open too.
abbrev pub holding : Option ℕ → (ℕ → ℕ) → ℕ → ℕ
holding none f = f
holding (some h) f = plus h f

pub minus-plus : (h : ℕ) (f : ℕ → ℕ) (a : ℕ) → minus h (plus h f) a ≡ f a
minus-plus h f a = ground arith
