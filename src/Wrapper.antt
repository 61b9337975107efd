-- ===== src/Wrapper.antt =====
-- The wrapped numbers of inc/wrapper_types.h, and those of inc/xsapi.h: domains and grant references. A
-- wrapper has the size of a pointer, and its bytes are those of the number, the lowest first.
pub mod Bits
pub mod Bytes
pub mod Domain
pub mod Grant
pub mod Xenbus
pub mod Xenops
mod Tests
use Prim.Native.Nat.{Fin, bit_or, bit_xor}
use winservice.Base.{ℕ, zero, suc, ◌+◌, ◌-◌, ◌*◌, ◌/◌, ◌%◌, ◌<◌, ◌==◌, Bool, bit_and, arith}

-- `__wrapped_data`, of `n` bytes.
abbrev pub Wrapped : ℕ → Type 0
Wrapped zero = Unit
Wrapped (suc n) = Fin 256 × Wrapped n

-- Whether `AMD64` is defined, and the bytes of a wrapper, which are those of a `ULONG_PTR`.
pub data Machine : Type 0 where
  x86 amd64 : Machine

abbrev pub width : Machine → ℕ
width x86 = 4
width amd64 = 8

pub byte_lt : (x : ℕ) → x % 256 < 256
byte_lt x = omega arith

abbrev pub byte : ℕ → Fin 256
byte x = (x % 256, byte_lt x)

-- `*(type *)ret.__wrapped_data = val` for a type of `k` bytes; `ret` has no value before.
unfoldable pub wrap : (k val : ℕ) (n : ℕ) → Wrapped n → Wrapped n
wrap zero val n ret = ret
wrap (suc k) val zero ret = ret
wrap (suc k) val (suc n) (b, ret) = (byte val, wrap k (val / 256) n ret)

-- `*(type *)x.__wrapped_data`
unfoldable pub unwrap : (k n : ℕ) → Wrapped n → ℕ
unwrap zero n x = 0
unwrap (suc k) zero x = 0
unwrap (suc k) (suc n) (b, x) = b.0 + 256 * unwrap k n x

unfoldable pub null : (n : ℕ) → Wrapped n
null zero = tt
null (suc n) = (byte 0, null n)

unfoldable pub is_null : (n : ℕ) → Wrapped n → Bool
unfolding unwrap
is_null n x = unwrap n n x == 0

-- An `int` is its pattern of 32 bits.
unfoldable pub wrap_domain_id : (m : Machine) → Wrapped (width m) → ℕ → Wrapped (width m)
unfolding wrap
wrap_domain_id m ret x = wrap 4 (bit_xor x 0xf001) (width m) ret

unfoldable pub unwrap_domain_id : (m : Machine) → Wrapped (width m) → ℕ
unfolding unwrap
unwrap_domain_id m x = bit_xor (unwrap 4 (width m) x) 0xf001

-- `x + 1` and the shift are of 32 bits.
unfoldable pub wrap_grant_ref :
    (m : Machine) → Wrapped (width m) → (x cache : ℕ) → Wrapped (width m)
unfolding wrap
wrap_grant_ref m ret x cache =
    wrap (width m) (bit_or ((x + 1) % 4294967296 * 1024 % 4294967296) (bit_and cache 3)) (width m)
      ret

-- `(xen_grant_ref_t)((res >> 10) - 1)`
unfoldable pub xen_grant_ref : (m : Machine) → Wrapped (width m) → ℕ
unfolding unwrap
xen_grant_ref m g = (unwrap (width m) (width m) g / 1024 + 4294967295) % 4294967296
