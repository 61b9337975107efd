-- ===== src/Base/Decimal.antt =====
-- Decimal numbers of the C library: `%d`, `%.2d`, `_itoa_s` in base 10 and `atoi`.
use Prim.Native.Nat.{ℕ, zero, suc, ◌+◌, ◌-◌, ◌*◌, ◌/◌, ◌%◌, ◌^◌}
use mathlib.Core.Bool.{Bool, true, false, ◌&&◌, ◌||◌}
use mathlib.Core.List.{List, [], ◌∷◌, ◌++◌}
use winservice.Base.Tests.{ltb, leb, ◌==◌, if◌then◌else◌}
use winservice.Base.Lists.{length, replicate}
use winservice.Base.Int.{ℤ, pos, negsuc}
use winservice.Base.Chars.{Text}
pub mod Laws

-- The digits of `n`, most significant first, for fuel above `n`.
digits_fuel : ℕ → ℕ → Text
digits_fuel zero n = []
digits_fuel (suc f) n =
    let front : Text = digits_fuel f (n / 10) in
    if ltb n 10 then (48 + n) ∷ [] else (front ++ (48 + n % 10) ∷ [])

unfoldable pub show_nat : ℕ → Text
unfolding digits_fuel
show_nat n = digits_fuel (suc n) n

-- `%x`, with the same fuel.
hex_fuel : ℕ → ℕ → Text
hex_fuel zero n = []
hex_fuel (suc f) n =
    let front : Text = hex_fuel f (n / 16) in
    let digit = n % 16 in
    let last : ℕ = if ltb digit 10 then 48 + digit else 87 + digit in
    if ltb n 16 then last ∷ [] else (front ++ last ∷ [])

unfoldable pub show_hex : ℕ → Text
unfolding hex_fuel
show_hex n = hex_fuel (suc n) n

-- `%d` of an `int`, and `_itoa_s`.
unfoldable pub show_int : ℤ → Text
unfolding show_nat
show_int (pos n) = show_nat n
show_int (negsuc n) = b'-' ∷ show_nat (suc n)

-- `%.kd` of a value that is not negative: at least `k` digits.
unfoldable pub show_padded : ℕ → ℕ → Text
unfolding show_nat
show_padded k n = let ds = show_nat n in replicate (k - length ds) b'0' ++ ds

abbrev is_digit : ℕ → Bool
is_digit c = leb b'0' c && leb c b'9'

abbrev is_space : ℕ → Bool
is_space c = c == 32 || (leb 9 c && leb c 13)

-- The value of the leading digits, behind those already read.
pub digits_value : ℕ → Text → ℕ
digits_value acc [] = acc
digits_value acc (c ∷ t) =
    let rest = digits_value (acc * 10 + (c - 48)) t in if is_digit c then rest else acc

-- The Microsoft library's `atoi` stops at the ends of the range.
abbrev saturate : ℕ → ℤ
saturate n = if ltb n (2 ^ 31) then pos n else pos (2 ^ 31 - 1)

abbrev saturate_neg : ℕ → ℤ
saturate_neg n =
    if n == 0 then pos 0 else if leb n (2 ^ 31) then negsuc (n - 1) else negsuc (2 ^ 31 - 1)

signed_value : Text → ℤ
unfolding digits_value
signed_value [] = pos 0
signed_value (c ∷ t) =
    if c == b'-'
    then saturate_neg (digits_value 0 t)
    else if c == b'+'
    then saturate (digits_value 0 t)
    else saturate (digits_value 0 (c ∷ t))

skip_spaces : Text → Text
skip_spaces [] = []
skip_spaces (c ∷ t) = let rest = skip_spaces t in if is_space c then rest else c ∷ t

unfoldable pub atoi : Text → ℤ
unfolding signed_value skip_spaces
atoi t = signed_value (skip_spaces t)
