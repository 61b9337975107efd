-- ===== src/Base/Words.antt =====
-- Unsigned 32-bit arithmetic with its wrap-around, and masks of low bits.
use Prim.Native.Nat.{
  ℕ, zero, suc, ◌+◌, ◌-◌, ◌*◌, ◌/◌, ◌%◌, ◌^◌, ◌≤◌, ◌<◌, min, bit_and, bit_and-bitwise, digits,
}
use mathlib.Core.Path.{◌≡◌, sym, ap, ◌∙◌}
use native.Mathlib.Nat.{
  add-mul-mod_self_left, mod-eq_of_lt, mod-lt, div-add-mod, mod-one, zero-mod, pow-succ',
  one-le-pow, div-div-eq-div-mul, div-one, mul_assoc, mul_left_comm, zero-div, pow-zero,
}
use native.Mathlib.Omega.{arith}

abbrev pub add32 : ℕ → ℕ → ℕ
add32 a b = (a + b) % 4294967296

abbrev pub sub32 : ℕ → ℕ → ℕ
sub32 a b = (a + (4294967296 - b % 4294967296)) % 4294967296

abbrev pub low32 : ℕ → ℕ
low32 a = a % 4294967296

-- The difference of two counters that are at most a word apart.
pub sub32-low32 : (a b : ℕ) → b ≤ a → a - b < 4294967296 → sub32 (low32 a) (low32 b) ≡ a - b
sub32-low32 a b le near = omega arith

-- `a & b`, by its digits.
abbrev and_upto : ℕ → ℕ → ℕ → ℕ
and_upto n a b = digits (λ _. zero) min n a b

double-mod : (a m : ℕ) → 0 < m → a / 2 % m * 2 + a % 2 ≡ a % (2 * m)
double-mod a m pos =
    let q = a / 2 in
    let r : ℕ = q % m * 2 + a % 2 in
    let whole = div-add-mod q m in
    let below = mod-lt q pos in
    let split : a ≡ r + 2 * m * (q / m) = omega (arith, whole, mul_assoc 2 m (q / m)) in
    sym (
      ap (λ x. x % (2 * m)) split
      ∙ add-mul-mod_self_left r (2 * m) (q / m)
      ∙ mod-eq_of_lt (omega (arith, below)))

pow_pos : (k : ℕ) → 0 < 2 ^ k
pow_pos k = one-le-pow k 2 (omega arith)

mask_upto : (n a k : ℕ) → a ≤ n → and_upto n a (2 ^ k - 1) ≡ a % 2 ^ k
mask_upto zero zero k le = sym (zero-mod (2 ^ k))
mask_upto zero (suc a) k le = absurd (omega arith)
mask_upto (suc n) zero k le = sym (zero-mod (2 ^ k))
mask_upto (suc n) (suc a) zero le =
    omega (arith, mask_upto n (suc a / 2) zero (omega arith), mod-one (suc a / 2), mod-one (suc a))
mask_upto (suc n) (suc a) (suc k) le =
    let rest = mask_upto n (suc a / 2) k (omega arith) in
    let pos = pow_pos k in
    let power = pow-succ' 2 k in
    let half : (2 ^ suc k - 1) / 2 ≡ 2 ^ k - 1 = omega (arith, pos, power) in
    let odd : (2 ^ suc k - 1) % 2 ≡ 1 = omega (arith, pos, power) in
    rw (half, odd, power, rest) (omega (arith, double-mod (suc a) (2 ^ k) pos))

-- A mask of low bits is a remainder.
pub bit_and-mask : (a k : ℕ) → bit_and a (2 ^ k - 1) ≡ a % 2 ^ k
bit_and-mask a k = bit_and-bitwise a (2 ^ k - 1) ∙ mask_upto a a k (omega arith)

shifted_upto :
    (n a k j : ℕ) → a ≤ n → and_upto n a ((2 ^ k - 1) * 2 ^ j) ≡ a / 2 ^ j % 2 ^ k * 2 ^ j
shifted_upto n a k zero le =
    let one : (2 ^ k - 1) * 2 ^ 0 ≡ 2 ^ k - 1 = rw (pow-zero) (omega arith) in
    rw (one, div-one, pow-zero) (omega (arith, mask_upto n a k le))
shifted_upto zero zero k (suc j) le = rw (zero-div (2 ^ suc j), zero-mod (2 ^ k)) (omega arith)
shifted_upto zero (suc a) k (suc j) le = absurd (omega arith)
shifted_upto (suc n) zero k (suc j) le = rw (zero-div (2 ^ suc j), zero-mod (2 ^ k)) (omega arith)
shifted_upto (suc n) (suc a) k (suc j) le =
    let rest = shifted_upto n (suc a / 2) k j (omega arith) in
    let power = pow-succ' 2 j in
    let b = (2 ^ k - 1) * 2 ^ j in
    let twice : (2 ^ k - 1) * 2 ^ suc j ≡ 2 * b =
      rw power (omega (arith, mul_left_comm (2 ^ k - 1) 2 (2 ^ j))) in
    let half : (2 * b) / 2 ≡ b = omega arith in
    let even : (2 * b) % 2 ≡ 0 = omega arith in
    let quotient : suc a / 2 / 2 ^ j ≡ suc a / 2 ^ suc j =
      rw power (div-div-eq-div-mul (suc a) 2 (2 ^ j)) in
    rw (twice, half, even, rest, quotient, power)
      (omega (arith, mul_left_comm (suc a / (2 * 2 ^ j) % 2 ^ k) 2 (2 ^ j)))

-- A mask of bits further up.
pub bit_and-shifted : (a k j : ℕ) → bit_and a ((2 ^ k - 1) * 2 ^ j) ≡ a / 2 ^ j % 2 ^ k * 2 ^ j
bit_and-shifted a k j = bit_and-bitwise a ((2 ^ k - 1) * 2 ^ j) ∙ shifted_upto a a k j (omega arith)
