-- ===== src/Wrapper/Bits.antt =====
-- Exclusive or and or of numbers, digit by digit.
use Prim.Native.Nat.{max, bit_or, bit_or-bitwise, bit_xor, bit_xor-bitwise, digits, differ}
use native.Mathlib.Nat.{pow-succ', pow-zero}
use winservice.Base.{ℕ, zero, suc, ◌+◌, ◌*◌, ◌/◌, ◌%◌, ◌^◌, ◌≤◌, ◌<◌, ◌≡◌, refl, ◌∙◌, arith}

-- The digits of an operation that keeps the second number where the first has none.
module _ (f : ℕ → ℕ → ℕ) where
  abbrev upto : ℕ → ℕ → ℕ → ℕ
  upto n a b = digits (λ c. c) f n a b

  -- Any two counts that are enough give the same.
  enough : (b n m a : ℕ) → a ≤ m → a ≤ n → upto m a b ≡ upto n a b
  enough b zero zero a le le' = refl
  enough b zero (suc m) zero le le' = refl
  enough b (suc n) zero zero le le' = refl
  enough b (suc n) (suc m) zero le le' = refl
  enough b zero m (suc a) le le' = absurd (omega arith)
  enough b (suc n) zero (suc a) le le' = absurd (omega arith)
  enough b (suc n) (suc m) (suc a) le le' =
      omega (arith, enough (b / 2) n m (suc a / 2) (omega arith) (omega arith))

zero-bit_xor : (b : ℕ) → bit_xor 0 b ≡ b
zero-bit_xor b = bit_xor-bitwise 0 b

-- The lowest digit, and the others.
bit_xor_step : (a b : ℕ) → bit_xor a b ≡ bit_xor (a / 2) (b / 2) * 2 + differ (a % 2) (b % 2)
bit_xor_step zero b = omega (arith, zero-bit_xor b, zero-bit_xor (b / 2))
bit_xor_step (suc a) b = omega (
  arith,
  bit_xor-bitwise (suc a) b,
  bit_xor-bitwise (suc a / 2) (b / 2),
  enough differ (b / 2) (suc a / 2) a (suc a / 2) (omega arith) (omega arith),
)

differ-lt : (x y : ℕ) → x < 2 → y < 2 → differ x y < 2
differ-lt zero y p q = q
differ-lt (suc zero) zero p q = p
differ-lt (suc zero) (suc y) p q = omega arith
differ-lt (suc (suc x)) y p q = absurd (omega arith)

differ_twice : (x y : ℕ) → x < 2 → y < 2 → differ (differ x y) y ≡ x
differ_twice zero zero p q = refl
differ_twice zero (suc zero) p q = refl
differ_twice (suc zero) zero p q = refl
differ_twice (suc zero) (suc zero) p q = refl
differ_twice (suc (suc x)) y p q = absurd (omega arith)
differ_twice x (suc (suc y)) p q = absurd (omega arith)

xor_twice_upto : (n a b : ℕ) → a ≤ n → b ≤ n → bit_xor (bit_xor a b) b ≡ a
xor_twice_upto zero zero zero p q = refl
xor_twice_upto zero (suc a) b p q = absurd (omega arith)
xor_twice_upto zero zero (suc b) p q = absurd (omega arith)
xor_twice_upto (suc n) a b p q =
    let x = bit_xor a b in
    let rest = bit_xor (a / 2) (b / 2) in
    let ih = xor_twice_upto n (a / 2) (b / 2) (omega arith) (omega arith) in
    let step = bit_xor_step a b in
    let small = differ-lt (a % 2) (b % 2) (omega arith) (omega arith) in
    let half : x / 2 ≡ rest = omega (arith, step, small) in
    let low : x % 2 ≡ differ (a % 2) (b % 2) = omega (arith, step, small) in
    let back = differ_twice (a % 2) (b % 2) (omega arith) (omega arith) in
    let again : bit_xor x b ≡ bit_xor rest (b / 2) * 2 + differ (differ (a % 2) (b % 2)) (b % 2) =
      bit_xor_step x b ∙ rw (half, low) refl in
    omega (arith, again, ih, back)

pub bit_xor_twice : (a b : ℕ) → bit_xor (bit_xor a b) b ≡ a
bit_xor_twice a b = xor_twice_upto (a + b) a b (omega arith) (omega arith)

pub bit_xor-lt : (k a b : ℕ) → a < 2 ^ k → b < 2 ^ k → bit_xor a b < 2 ^ k
bit_xor-lt zero zero zero p q = omega arith
bit_xor-lt zero (suc a) b p q = absurd (omega (arith, pow-zero 2))
bit_xor-lt zero zero (suc b) p q = absurd (omega (arith, pow-zero 2))
bit_xor-lt (suc k) a b p q =
    let power = pow-succ' 2 k in
    let step = bit_xor_step a b in
    let rest = bit_xor-lt k (a / 2) (b / 2) (omega (arith, power)) (omega (arith, power)) in
    let small = differ-lt (a % 2) (b % 2) (omega arith) (omega arith) in
    omega (arith, power, step, rest, small)

zero-bit_or : (b : ℕ) → bit_or 0 b ≡ b
zero-bit_or b = bit_or-bitwise 0 b

bit_or_step : (a b : ℕ) → max (a % 2) (b % 2) + 2 * bit_or (a / 2) (b / 2) ≡ bit_or a b
bit_or_step zero b = omega (arith, zero-bit_or b, zero-bit_or (b / 2))
bit_or_step (suc a) b = omega (
  arith,
  bit_or-bitwise (suc a) b,
  bit_or-bitwise (suc a / 2) (b / 2),
  enough max (b / 2) (suc a / 2) a (suc a / 2) (omega arith) (omega arith),
)

bit_or-zero_upto : (n a : ℕ) → a ≤ n → bit_or a 0 ≡ a
bit_or-zero_upto n zero p = refl
bit_or-zero_upto zero (suc a) p = absurd (omega arith)
bit_or-zero_upto (suc n) (suc a) p =
    omega (arith, bit_or_step (suc a) 0, bit_or-zero_upto n (suc a / 2) (omega arith))

-- Two low bits beside a number that has none of them.
pub bit_or-low : (a r : ℕ) → r < 4 → bit_or (a * 4) r ≡ a * 4 + r
bit_or-low a r p =
    let zero_above = bit_or-zero_upto a a (omega arith) in
    let first = bit_or_step (a * 4) r in
    let second = bit_or_step (a * 4 / 2) (r / 2) in
    let a' : a * 4 / 2 / 2 ≡ a = omega arith in
    let r' : r / 2 / 2 ≡ 0 = omega arith in
    let third : bit_or (a * 4 / 2 / 2) (r / 2 / 2) ≡ a = rw (a', r') zero_above in
    omega (arith, first, second, third)
