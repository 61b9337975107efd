-- ===== src/Wrapper/Domain.antt =====
-- Domains by their wrapped numbers.
use mathlib.Core.Equiv.{IsEquiv, Iso, iso_to_equiv}
use mathlib.Core.HLevel.{Σ_prop_path}
use native.Mathlib.Bridge.{le_prop}
use native.Mathlib.Nat.{mod-eq_of_lt}
use Prim.Native.Nat.{Fin, bit_xor}
use winservice.Base.{ℕ, ◌<◌, ◌≤◌, ◌≡◌, ap, ◌∙◌, arith}
use winservice.Wrapper.{
  Wrapped, Machine, x86, amd64, width, wrap, unwrap, wrap_domain_id, unwrap_domain_id,
}
use winservice.Wrapper.Bits.{bit_xor_twice, bit_xor-lt}
use winservice.Wrapper.Bytes.{unwrap-wrap, wrap-unwrap, unwrap-lt}

pub int_fits : (m : Machine) → 4 ≤ width m
int_fits x86 = omega arith
int_fits amd64 = omega arith

-- An `int` that has been made a domain is got back, on both machines and whatever the bytes of the
-- wrapper were.
pub unwrap_domain_id-wrap_domain_id :
    (m : Machine) (ret : Wrapped (width m)) (x : ℕ)
    → x < 4294967296
    → unwrap_domain_id m (wrap_domain_id m ret x) ≡ x
unfolding wrap_domain_id unwrap_domain_id
unwrap_domain_id-wrap_domain_id m ret x small =
    let y = bit_xor x 0xf001 in
    let bound : y < 4294967296 = bit_xor-lt 32 x 0xf001 small (omega arith) in
    let back : unwrap 4 (width m) (wrap 4 y (width m) ret) ≡ y =
      unwrap-wrap 4 y (width m) ret (int_fits m) ∙ mod-eq_of_lt bound in
    ap (λ z. bit_xor z 0xf001) back ∙ bit_xor_twice x 0xf001

unwrap_domain_id-lt : (x : Wrapped 4) → unwrap_domain_id x86 x < 4294967296
unfolding unwrap_domain_id
unwrap_domain_id-lt x = bit_xor-lt 32 (unwrap 4 4 x) 0xf001 (unwrap-lt 4 4 x) (omega arith)

wrap_domain_id-unwrap_domain_id :
    (ret x : Wrapped 4) → wrap_domain_id x86 ret (unwrap_domain_id x86 x) ≡ x
unfolding wrap_domain_id unwrap_domain_id
wrap_domain_id-unwrap_domain_id ret x =
    ap (λ y. wrap 4 y 4 ret) (bit_xor_twice (unwrap 4 4 x) 0xf001) ∙ wrap-unwrap 4 ret x

domain_iso : (ret : Wrapped 4) → Iso (Fin 4294967296) (Wrapped 4)
domain_iso ret = record {
  fun = λ x. wrap_domain_id x86 ret x.0;
  inv = λ d. (unwrap_domain_id x86 d, unwrap_domain_id-lt d);
  rinv = λ d. wrap_domain_id-unwrap_domain_id ret d;
  linv = λ x. Σ_prop_path (λ _. le_prop) (unwrap_domain_id-wrap_domain_id x86 ret x.0 x.1);
}

-- On the machine of 32 bits the domains are the `int`s: for whatever bytes the wrapper had,
-- wrap_DOMAIN_ID is an equivalence of the patterns of 32 bits and the wrappers.
pub wrap_domain_id-IsEquiv :
    (ret : Wrapped 4) → IsEquiv (λ (x : Fin 4294967296). wrap_domain_id x86 ret x.0)
unfolding domain_iso
wrap_domain_id-IsEquiv ret = (iso_to_equiv (domain_iso ret)).1
