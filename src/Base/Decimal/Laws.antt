-- ===== src/Base/Decimal/Laws.antt =====
-- What is printed in decimal is read back by `atoi`.
use Prim.Native.Nat.{ℕ, zero, suc, ◌+◌, ◌-◌, ◌*◌, ◌/◌, ◌%◌, ◌^◌, ◌≤◌, ◌<◌}
use mathlib.Core.Path.{◌≡◌, refl, ◌∙◌, ap}
use mathlib.Core.Logic.{◌≢◌, inl, inr}
use mathlib.Core.List.{List, [], ◌∷◌, ◌++◌}
use native.Mathlib.Omega.{arith}
use native.Mathlib.Nat.{pow-suc}
use winservice.Base.Tests.{ltb, Bool-cases, ltb→lt}
use winservice.Base.Lists.{length, All, replicate, length-append, length-replicate}
use winservice.Base.Int.{ℤ, pos, negsuc, IsInt}
use winservice.Base.Chars.{Text}
use winservice.Base.Decimal.{
  digits_fuel, show_nat, show_int, show_padded, digits_value, signed_value, skip_spaces, atoi,
}

abbrev pub IsDigit : ℕ → Type 0
IsDigit c = (48 ≤ c) × (c ≤ 57)

All-append {ℓ κ} :
    {A : Type ℓ} (P : A → Type κ) (xs ys : List A) → All P xs → All P ys → All P (xs ++ ys)
All-append P [] ys h k = k
All-append P (x ∷ xs) ys h k = (h.0, All-append P xs ys h.1 k)

digits_fuel-All : (f n : ℕ) → All IsDigit (digits_fuel f n)
unfolding digits_fuel
digits_fuel-All zero n = tt
digits_fuel-All (suc f) n = elim (Bool-cases (ltb n 10)) [
  | inl h ↦ rw h (omega (arith, ltb→lt n 10 h))
  | inr h ↦
      rw h
        (All-append IsDigit (digits_fuel f (n / 10)) _ (digits_fuel-All f (n / 10)) (omega arith))
]

pub show_nat-All : (n : ℕ) → All IsDigit (show_nat n)
unfolding show_nat
show_nat-All n = digits_fuel-All (suc n) n

digits_value-append :
    (acc : ℕ) (xs ys : Text)
    → All IsDigit xs
    → digits_value acc (xs ++ ys) ≡ digits_value (digits_value acc xs) ys
unfolding digits_value
digits_value-append acc [] ys h = refl
digits_value-append acc (c ∷ xs) ys h =
    ground (arith, digits_value-append (acc * 10 + (c - 48)) xs ys h.1)

digits_value-digits_fuel : (f n : ℕ) → n < f → digits_value 0 (digits_fuel f n) ≡ n
unfolding digits_value digits_fuel
digits_value-digits_fuel zero n h = elim h [ ]
digits_value-digits_fuel (suc f) n h = elim (Bool-cases (ltb n 10)) [
  | inl small ↦ rw small (ground arith)
  | inr large ↦ rw large (
      digits_value-append 0 (digits_fuel f (n / 10)) _ (digits_fuel-All f (n / 10))
      ∙ rw (digits_value-digits_fuel f (n / 10) (ground arith)) (ground arith))
]

pub digits_value-show_nat : (n : ℕ) → digits_value 0 (show_nat n) ≡ n
unfolding show_nat
digits_value-show_nat n = digits_value-digits_fuel (suc n) n (omega arith)

digits_fuel-length : (k f n : ℕ) → n < 10 ^ suc k → length (digits_fuel f n) ≤ suc k
unfolding digits_fuel
digits_fuel-length k zero n h = omega arith
digits_fuel-length zero (suc f) n h = ground arith
digits_fuel-length (suc k) (suc f) n h = elim (Bool-cases (ltb n 10)) [
  | inl small ↦ rw small (omega arith)
  | inr large ↦ rw large (
      omega (
        arith,
        digits_fuel-length k f (n / 10) (omega (arith, pow-suc 10 (suc k))),
        length-append (digits_fuel f (n / 10)) ((48 + n % 10) ∷ []),
      ))
]

-- A number below `10 ^ k` has at most `k` digits.
pub length-show_nat : (k n : ℕ) → n < 10 ^ suc k → length (show_nat n) ≤ suc k
unfolding show_nat
length-show_nat k n h = digits_fuel-length k (suc n) n h

pub length-show_int : (a : ℤ) → IsInt a → length (show_int a) ≤ 11
unfolding show_int
length-show_int (pos n) h = omega (arith, length-show_nat 9 n (omega arith))
length-show_int (negsuc n) h = omega (arith, length-show_nat 9 (suc n) (omega arith))

-- A text of digits is read as its value, if that fits.
signed_value-digits :
    (t : Text) (n : ℕ)
    → All IsDigit t
    → digits_value 0 t ≡ n
    → n < 2 ^ 31
    → signed_value (skip_spaces t) ≡ pos n
unfolding signed_value skip_spaces
signed_value-digits [] n h e lt = ap pos (unfold digits_value in e)
signed_value-digits (c ∷ t) n h e lt = ground arith

signed_value-minus :
    (t : Text) (n : ℕ)
    → digits_value 0 t ≡ suc n
    → n < 2 ^ 31
    → signed_value (skip_spaces (b'-' ∷ t)) ≡ negsuc n
unfolding skip_spaces signed_value
signed_value-minus t n e lt = rw e (ground arith)

-- What `_itoa_s` prints of an `int`, `atoi` reads back.
pub atoi-show_int : (a : ℤ) → IsInt a → atoi (show_int a) ≡ a
unfolding atoi show_int
atoi-show_int (pos n) h =
    signed_value-digits (show_nat n) n (show_nat-All n) (digits_value-show_nat n) (omega arith)
atoi-show_int (negsuc n) h =
    signed_value-minus (show_nat (suc n)) n (digits_value-show_nat (suc n)) (omega arith)

digit-NoNul : (t : Text) → All IsDigit t → All (λ b. b ≢ 0) t
digit-NoNul [] h = tt
digit-NoNul (c ∷ t) h = (omega arith, digit-NoNul t h.1)

pub show_int-NoNul : (a : ℤ) → All (λ b. b ≢ 0) (show_int a)
unfolding show_int
show_int-NoNul (pos n) = digit-NoNul (show_nat n) (show_nat-All n)
show_int-NoNul (negsuc n) = (omega arith, digit-NoNul (show_nat (suc n)) (show_nat-All (suc n)))

pub length-show_padded : (k w n : ℕ) → w ≤ suc k → n < 10 ^ suc k → length (show_padded w n) ≤ suc k
unfolding show_padded
length-show_padded k w n h lt = omega (
  arith,
  length-append (replicate (w - length (show_nat n)) b'0') (show_nat n),
  length-replicate {A = ℕ} (w - length (show_nat n)) b'0',
  length-show_nat k n lt,
)
