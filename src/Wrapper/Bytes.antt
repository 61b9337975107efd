-- ===== src/Wrapper/Bytes.antt =====
-- The bytes of a wrapped number.
use mathlib.Core.HLevel.{Σ_prop_path}
use native.Mathlib.Bridge.{le_prop}
use native.Mathlib.Nat.{
  add-mul-mod_self_left, mod-eq_of_lt, mod-lt, div-add-mod, pow-succ', pow-zero, one-le-pow,
  mul_assoc,
}
use winservice.Base.{
  ℕ, zero, suc, ◌+◌, ◌*◌, ◌/◌, ◌%◌, ◌^◌, ◌≤◌, ◌<◌, ◌≡◌, refl, sym, ap, ◌∙◌, arith,
}
use winservice.Wrapper.{Wrapped, byte, wrap, unwrap}

byte-mod : (x P : ℕ) → 0 < P → x % 256 + 256 * (x / 256 % P) ≡ x % (256 * P)
byte-mod x P pos =
    let q = x / 256 in
    let r : ℕ = x % 256 + 256 * (q % P) in
    let whole = div-add-mod q P in
    let below = mod-lt q pos in
    let split : x ≡ r + 256 * P * (q / P) = omega (arith, whole, mul_assoc 256 P (q / P)) in
    sym (
      ap (λ y. y % (256 * P)) split
      ∙ add-mul-mod_self_left r (256 * P) (q / P)
      ∙ mod-eq_of_lt (omega (arith, below)))

-- What is read of what was written, with as many bytes as the number's type has.
pub unwrap-wrap : (k x n : ℕ) (ret : Wrapped n) → k ≤ n → unwrap k n (wrap k x n ret) ≡ x % 256 ^ k
unfolding wrap unwrap
unwrap-wrap zero x n ret le = rw (pow-zero 256) (omega arith)
unwrap-wrap (suc k) x zero ret le = absurd (omega arith)
unwrap-wrap (suc k) x (suc n) (b, ret) le =
    rw (unwrap-wrap k (x / 256) n ret (omega arith), pow-succ' 256 k)
      (byte-mod x (256 ^ k) (one-le-pow k 256 (omega arith)))

pub unwrap-lt : (k n : ℕ) (x : Wrapped n) → unwrap k n x < 256 ^ k
unfolding unwrap
unwrap-lt zero n x = rw (pow-zero 256) (omega arith)
unwrap-lt (suc k) zero x = omega (arith, one-le-pow k 256 (omega arith), pow-succ' 256 k)
unwrap-lt (suc k) (suc n) ((b, small), x) = omega (arith, unwrap-lt k n x, pow-succ' 256 k, small)

-- All bytes are written anew.
pub wrap-unwrap : (n : ℕ) (ret x : Wrapped n) → wrap n (unwrap n n x) n ret ≡ x
unfolding wrap unwrap
wrap-unwrap zero ret x = refl
wrap-unwrap (suc n) (c, ret) ((b, small), x) =
    let rest = unwrap n n x in
    let first : byte (b + 256 * rest) ≡ (b, small) =
      Σ_prop_path (λ _. le_prop) (omega (arith, small)) in
    let others : (b + 256 * rest) / 256 ≡ rest = omega (arith, small) in
    rw (first, others, wrap-unwrap n ret x) refl
