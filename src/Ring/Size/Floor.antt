-- ===== src/Ring/Size/Floor.antt =====
-- `__RD32` rounds down to a power of two.
use winservice.Base.{
  ℕ, ◌+◌, ◌*◌, ◌/◌, ◌%◌, ◌^◌, ◌≤◌, ◌<◌, ◌==◌, ◌≡◌, refl, sym, zero, suc, ◌∙◌, ap, inl, inr, false,
  Bool-cases, bit_and, if◌then◌else◌, arith,
}
use winservice.Base.Words.{bit_and-shifted, bit_and-mask}
use winservice.Ring.Size.{rd2, rd4, rd8, rd16, rd32}
use native.Mathlib.Nat.{
  pow-suc, pow-zero, add-zero, add-suc, mul_assoc, one-le-pow, div-lt_iff_lt-mul, le-div_iff_mul-le,
  mod-eq_of_lt, lt-div-mul-add,
}

-- `r` is the greatest power of two that is not above `x`, and has fewer than `bits` zeros.
pub record IsFloor (bits x r : ℕ) : Type 0 where
  pub log : ℕ
  pub power : r ≡ 2 ^ log
  pub small : log < bits
  pub le : r ≤ x
  pub lt : x < 2 * r

rd2-IsFloor : (x : ℕ) → 0 < x → x < 4 → IsFloor 2 x (rd2 x)
unfolding rd2
rd2-IsFloor x pos lt =
    let high = bit_and-shifted x 1 1 in
    let low = bit_and-mask x 1 in
    elim (Bool-cases (bit_and x 2 == 0)) [
      | inl e ↦
          let one : bit_and x 1 ≡ 1 = ground (arith, high, low, e) in
          rw (e, one)
            (record {
              log = 0;
              power = refl;
              small = omega arith;
              le = omega arith;
              lt = ground (arith, high, e);
            })
      | inr e ↦ rw e (record {
        log = 1;
        power = refl;
        small = omega arith;
        le = ground (arith, high, e);
        lt = omega arith;
      })
    ]

power-add : (a b : ℕ) → 2 ^ a * 2 ^ b ≡ 2 ^ (a + b)
power-add a zero = rw (pow-zero, add-zero) (omega arith)
power-add a (suc b) =
    ap (λ e. 2 ^ a * e) (pow-suc 2 b)
    ∙ sym (mul_assoc (2 ^ a) (2 ^ b) 2)
    ∙ ap (λ e. e * 2) (power-add a b)
    ∙ sym (pow-suc 2 (a + b))
    ∙ ap (λ e. 2 ^ e) (sym (add-suc a b))

quotient_pos : (q m b : ℕ) → b ≡ q * m → (b == 0) ≡ false → 0 < q
quotient_pos zero m b e ne = ground (arith, e)
quotient_pos (suc q) m b e ne = omega arith

-- A macro of twice as many bits, from that of `bits` bits.
twice-IsFloor :
    (bits mask : ℕ) (f : ℕ → ℕ)
    → ((x : ℕ) → bit_and x mask ≡ x / 2 ^ bits % 2 ^ bits * 2 ^ bits)
    → ((y : ℕ) → 0 < y → y < 2 ^ bits → IsFloor bits y (f y))
    → (x : ℕ) → 0 < x
    → x < 2 ^ bits * 2 ^ bits
    → IsFloor (bits + bits) x (if bit_and x mask == 0 then f x else f (x / 2 ^ bits) * 2 ^ bits)
twice-IsFloor bits mask f masked half x pos lt =
    let m = 2 ^ bits in
    let m_pos : 0 < m = one-le-pow bits 2 (omega arith) in
    let top : x / m < m = (div-lt_iff_lt-mul {k = m} {x = x} {y = m} m_pos).1 lt in
    let bits_eq : bit_and x mask ≡ x / m * m = masked x ∙ ap (λ q. q * m) (mod-eq_of_lt top) in
    elim (Bool-cases (bit_and x mask == 0)) [
      | inl e ↦
          let whole = lt-div-mul-add {a = x} {b = m} m_pos in
          let floor = half x pos (ground (arith, e, bits_eq, whole)) in
          rw e (record {
            log = floor.log;
            power = floor.power;
            small = omega (arith, floor.small);
            le = floor.le;
            lt = floor.lt;
          })
      | inr e ↦
          let floor = half (x / m) (quotient_pos (x / m) m (bit_and x mask) bits_eq e) top in
          let r = f (x / m) in
          let above = (div-lt_iff_lt-mul {k = m} {x = x} {y = 2 * r} m_pos).0 floor.lt in
          rw e (record {
            log = floor.log + bits;
            power = ap (λ k. k * m) floor.power ∙ power-add floor.log bits;
            small = omega (arith, floor.small);
            le = (le-div_iff_mul-le {k = m} {x = r} {y = x} m_pos).0 floor.le;
            lt = omega (arith, above, mul_assoc 2 r m);
          })
    ]

rd4-IsFloor : (x : ℕ) → 0 < x → x < 16 → IsFloor 4 x (rd4 x)
unfolding rd4
rd4-IsFloor = twice-IsFloor 2 0xc rd2 (λ x. bit_and-shifted x 2 2) rd2-IsFloor

rd8-IsFloor : (x : ℕ) → 0 < x → x < 256 → IsFloor 8 x (rd8 x)
unfolding rd8
rd8-IsFloor = twice-IsFloor 4 0xf0 rd4 (λ x. bit_and-shifted x 4 4) rd4-IsFloor

rd16-IsFloor : (x : ℕ) → 0 < x → x < 65536 → IsFloor 16 x (rd16 x)
unfolding rd16
rd16-IsFloor = twice-IsFloor 8 0xff00 rd8 (λ x. bit_and-shifted x 8 8) rd8-IsFloor

-- Of a 32-bit number that is not 0, `__RD32` is the greatest power of two that is not above it.
pub rd32-IsFloor : (x : ℕ) → 0 < x → x < 4294967296 → IsFloor 32 x (rd32 x)
unfolding rd32
rd32-IsFloor = twice-IsFloor 16 0xffff0000 rd16 (λ x. bit_and-shifted x 16 16) rd16-IsFloor
