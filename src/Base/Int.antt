-- ===== src/Base/Int.antt =====
-- The C type `int`: an integer, with the wrap-around of 32-bit arithmetic where the code computes.
use Prim.Native.Nat.{ℕ, suc, ◌+◌, ◌-◌, ◌*◌, ◌%◌, ◌^◌, ◌≤◌, ◌<◌}
use mathlib.Core.Path.{◌≡◌}
use mathlib.Core.Bool.{Bool, ◌&&◌}
use native.Mathlib.Omega.{arith}
use winservice.Base.Tests.{ltb, ◌==◌, if◌then◌else◌}

-- `negsuc n` is -(n + 1).
pub data ℤ : Type 0 where
  pos : ℕ → ℤ
  negsuc : ℕ → ℤ

abbrev pub pos_part : ℤ → ℕ
pos_part (pos n) = n
pos_part (negsuc n) = 0

abbrev pub neg_part : ℤ → ℕ
neg_part (pos n) = 0
neg_part (negsuc n) = suc n

infix 50 ◌≤ℤ◌ ◌<ℤ◌
abbrev pub ◌≤ℤ◌ : ℤ → ℤ → Type 0
a ≤ℤ b = pos_part a + neg_part b ≤ pos_part b + neg_part a

abbrev pub ◌<ℤ◌ : ℤ → ℤ → Type 0
a <ℤ b = pos_part a + neg_part b < pos_part b + neg_part a

abbrev pub ltb_ℤ : ℤ → ℤ → Bool
ltb_ℤ a b = ltb (pos_part a + neg_part b) (pos_part b + neg_part a)

abbrev pub eqb_ℤ : ℤ → ℤ → Bool
eqb_ℤ a b = (pos_part a == pos_part b) && (neg_part a == neg_part b)

-- The 32-bit pattern `w` read as an `int`.
abbrev pub signed32 : ℕ → ℤ
signed32 w = if ltb w (2 ^ 31) then pos w else negsuc (2 ^ 32 - w - 1)

abbrev pub wrap32 : ℤ → ℤ
wrap32 (pos n) = signed32 (n % 2 ^ 32)
wrap32 (negsuc n) = signed32 (2 ^ 32 - 1 - n % 2 ^ 32)

-- `a + 1`
unfoldable pub int_suc : ℤ → ℤ
int_suc (pos n) = wrap32 (pos (n + 1))
int_suc (negsuc n) = if n == 0 then pos 0 else negsuc (n - 1)

-- `a * k` for a constant `k` that is not negative.
unfoldable pub int_scale : ℕ → ℤ → ℤ
int_scale k (pos n) = wrap32 (pos (n * k))
int_scale k (negsuc n) = if k == 0 then pos 0 else wrap32 (negsuc (suc n * k - 1))

-- The range of an `int`.
abbrev pub IsInt : ℤ → Type 0
IsInt a = (pos_part a < 2 ^ 31) × (neg_part a ≤ 2 ^ 31)

pub int_suc-pos : (n : ℕ) → n + 1 < 2 ^ 31 → int_suc (pos n) ≡ pos (n + 1)
unfolding int_suc
int_suc-pos n h = ground arith

pub int_suc-IsInt : (a : ℤ) → IsInt a → IsInt (int_suc a)
unfolding int_suc
int_suc-IsInt (pos n) h = ground arith
int_suc-IsInt (negsuc n) h = ground arith
