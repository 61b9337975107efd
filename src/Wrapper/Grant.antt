-- ===== src/Wrapper/Grant.antt =====
-- Grant references by their wrapped numbers.
use native.Mathlib.Nat.{mod-eq_of_lt}
use Prim.Native.Nat.{bit_or}
use winservice.Base.{ℕ, ◌+◌, ◌*◌, ◌%◌, ◌<◌, ◌≡◌, ◌↔◌, ◌∙◌, bit_and, ◌==◌, ◌&&◌, arith}
use winservice.Base.Words.{bit_and-mask}
use winservice.Wrapper.{
  Wrapped, Machine, x86, amd64, width, wrap, unwrap, is_null, wrap_grant_ref, xen_grant_ref,
}
use winservice.Wrapper.Bits.{bit_or-low}
use winservice.Wrapper.Bytes.{unwrap-wrap}

-- The number in a wrapper.
abbrev content : (x cache : ℕ) → ℕ
content x cache = (x + 1) % 4194304 * 1024 + cache % 4

value_lem :
    (x cache : ℕ)
    → bit_or ((x + 1) % 4294967296 * 1024 % 4294967296) (bit_and cache 3) ≡ content x cache
value_lem x cache =
    let y : ℕ = (x + 1) % 4194304 in
    let shifted : (x + 1) % 4294967296 * 1024 % 4294967296 ≡ y * 256 * 4 = omega arith in
    let low : bit_and cache 3 ≡ cache % 4 = bit_and-mask cache 2 in
    rw (shifted, low) (omega (arith, bit_or-low (y * 256) (cache % 4) (omega arith)))

whole :
    (m : Machine) (ret : Wrapped (width m)) (v : ℕ)
    → v < 4294967296
    → unwrap (width m) (width m) (wrap (width m) v (width m) ret) ≡ v
whole x86 ret v small = unwrap-wrap 4 v 4 ret (omega arith) ∙ mod-eq_of_lt small
whole amd64 ret v small = unwrap-wrap 8 v 8 ret (omega arith) ∙ mod-eq_of_lt (omega (arith, small))

unwrap-wrap_grant_ref :
    (m : Machine) (ret : Wrapped (width m)) (x cache : ℕ)
    → unwrap (width m) (width m) (wrap_grant_ref m ret x cache) ≡ content x cache
unfolding wrap_grant_ref
unwrap-wrap_grant_ref m ret x cache =
    rw (value_lem x cache) (whole m ret (content x cache) (omega arith))

-- For a reference of the hypervisor below 2 ^ 32 - 1, and any cache: the reference is got back from its
-- wrapper exactly if it is below 2 ^ 22 - 1, and the wrapper is null exactly if 2 ^ 22 divides the next
-- number and 4 the cache.
pub xen_grant_ref-wrap_grant_ref :
    (m : Machine) (ret : Wrapped (width m)) (x cache : ℕ)
    → x < 4294967295
    → ((xen_grant_ref m (wrap_grant_ref m ret x cache) ≡ x) ↔ (x < 4194303))
      × (is_null (width m) (wrap_grant_ref m ret x cache)
          ≡ ((x + 1) % 4194304 == 0) && (cache % 4 == 0))
unfolding xen_grant_ref is_null
xen_grant_ref-wrap_grant_ref m ret x cache small =
    let v = unwrap-wrap_grant_ref m ret x cache in
    rw v ((λ e. omega (arith, e, small), λ lt. omega (arith, lt)), ground arith)
