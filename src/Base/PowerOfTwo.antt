-- ===== src/Base/PowerOfTwo.antt =====
-- Sizes of rings that are powers of two, and the masks that go with them.
use Prim.Native.Nat.{◌∣◌}
use native.Mathlib.Nat.{
  mod-eq_of_lt, div-add-mod, mul-le-mul_left, mul_comm, mul_assoc, mul-suc, mul-sub, pow-zero,
  add-zero, add-suc, pow-suc, dvd_refl, dvd-mul_right_of_dvd, one-le-pow, pow-le-pow_right,
}
use mathlib.Core.Path.{subst}
use winservice.Base.{
  ℕ, zero, suc, ◌+◌, ◌-◌, ◌*◌, ◌/◌, ◌%◌, ◌^◌, ◌≤◌, ◌<◌, ◌≡◌, sym, ap, ◌∙◌, inl, inr, Bool-cases,
  bit_and, ltb, arith,
}
use winservice.Base.Words.{sub32, bit_and-mask, bit_and-shifted}

-- A power of two that a ring can have as its number of entries.
pub record IsSize (n : ℕ) : Type 0 where
  pub log : ℕ
  pub power : n ≡ 2 ^ log
  pub small : log ≤ 31

pow-dvd : (k m : ℕ) → 2 ^ k ∣ 2 ^ (k + m)
pow-dvd k zero = rw (add-zero) (dvd_refl (2 ^ k))
pow-dvd k (suc m) = rw (add-suc, pow-suc) (dvd-mul_right_of_dvd (2 ^ k) (pow-dvd k m) 2)

pow-add : (k m : ℕ) → 2 ^ (k + m) ≡ 2 ^ k * 2 ^ m
pow-add k zero = rw (add-zero, pow-zero) (omega arith)
pow-add k (suc m) = rw (add-suc, pow-suc, pow-suc, pow-add k m) (mul_assoc (2 ^ k) (2 ^ m) 2)

module _ {n : ℕ} (size : IsSize n) where
  pub size-pos : 0 < n
  size-pos = rw (size.power) (one-le-pow size.log 2 (omega arith))

  pub size-le : n ≤ 2147483648
  size-le =
      rw (size.power) (pow-le-pow_right {n = 2} (omega arith) {i = size.log} {j = 31} size.small)

  pub size-whole : n ∣ 4294967296
  size-whole = rw (size.power) (
      subst (λ e. 2 ^ size.log ∣ 2 ^ e) {x = size.log + (32 - size.log)} {y = 32}
        (omega (arith, size.small)) (pow-dvd size.log (32 - size.log)))

  -- The part of a word below the size.
  pub low_bits : (w : ℕ) → bit_and w (sub32 n 1) ≡ w % n
  low_bits w =
      let pos = size-pos in
      let le = size-le in
      let mask : sub32 n 1 ≡ 2 ^ size.log - 1 = omega (arith, pos, le, size.power) in
      ap (bit_and w) mask ∙ bit_and-mask w size.log ∙ ap (λ m. w % m) (sym size.power)

  -- How many times it fits a word.
  rounds : n * 2 ^ (32 - size.log) ≡ 4294967296
  rounds =
      let split = pow-add size.log (32 - size.log) in
      let sum : size.log + (32 - size.log) ≡ 32 = omega (arith, size.small) in
      ap (λ m. m * 2 ^ (32 - size.log)) size.power ∙ sym split ∙ ap (λ e. 2 ^ e) sum

  div-below : (w : ℕ) → w < 4294967296 → w / n < 2 ^ (32 - size.log)
  div-below w lt = elim (Bool-cases (ltb (w / n) (2 ^ (32 - size.log)))) [
    | inl e ↦ ground (arith, e)
    | inr e ↦
        let least : 2 ^ (32 - size.log) ≤ w / n = ground (arith, e) in
        absurd (omega (arith, mul-le-mul_left n least, rounds, div-add-mod w n))
  ]

  -- The part of a word above it.
  pub high_bits : (w : ℕ) → w < 4294967296 → bit_and w (4294967295 - sub32 n 1) ≡ w - w % n
  high_bits w lt =
      let pos = size-pos in
      let le = size-le in
      let product : (2 ^ (32 - size.log) - 1) * 2 ^ size.log ≡ n * (2 ^ (32 - size.log) - 1) =
        mul_comm (2 ^ (32 - size.log) - 1) (2 ^ size.log)
        ∙ ap (λ m. m * (2 ^ (32 - size.log) - 1)) (sym size.power) in
      let mask : 4294967295 - sub32 n 1 ≡ (2 ^ (32 - size.log) - 1) * 2 ^ size.log =
        omega (arith, pos, le, size.power, rounds, mul-sub n (2 ^ (32 - size.log)) 1, product) in
      ap (bit_and w) mask
      ∙ bit_and-shifted w (32 - size.log) size.log
      ∙ ap (λ m. w / m % 2 ^ (32 - size.log) * m) (sym size.power)
      ∙ ap (λ e. e * n) (mod-eq_of_lt (div-below w lt))
      ∙ omega (arith, div-add-mod w n, mul_comm n (w / n))

  -- A round that a word is in ends within the words.
  pub round_left : (w : ℕ) → w < 4294967296 → w - w % n + n ≤ 4294967296
  round_left w lt =
      let below = div-below w lt in
      let wide = mul-le-mul_left n below in
      omega (arith, wide, rounds, mul-suc n (w / n), div-add-mod w n)
