-- ===== src/Wrapper/Tests.antt =====
-- A domain and a grant reference in their wrappers.
use mathlib.Core.Equiv.{IsEquiv}
use Prim.Native.Nat.{Fin}
use winservice.Base.{ℕ, ◌+◌, ◌%◌, ◌<◌, ◌≡◌, ◌↔◌, refl, true, not, ◌==◌, ◌&&◌, arith}
use winservice.Wrapper.{
  Wrapped, x86, amd64, byte, wrap, unwrap, null, is_null, wrap_domain_id, unwrap_domain_id,
  wrap_grant_ref, xen_grant_ref,
}
use winservice.Wrapper.Domain.{unwrap_domain_id-wrap_domain_id, wrap_domain_id-IsEquiv}
use winservice.Wrapper.Xenbus.{
  wrap_xenbus_state, same_xenbus_state, xbt_nil, is_nil_xenbus_transaction,
  same_xenbus_state-wrap_xenbus_state,
}
use winservice.Wrapper.Grant.{xen_grant_ref-wrap_grant_ref}

-- What a local variable held.
abbrev stale : Wrapped 8
stale = (byte 1, (byte 2, (byte 3, (byte 4, (byte 5, (byte 6, (byte 7, (byte 8, tt))))))))

abbrev stale_word : Wrapped 4
stale_word = (byte 1, (byte 2, (byte 3, (byte 4, tt))))

-- A wrapper that is null is no domain that anyone has.
null_domain : unwrap_domain_id x86 (null 4) ≡ 0xf001
unfolding unwrap_domain_id unwrap null
null_domain = refl

-- The number 0 in a wrapper of 8 bytes is null or not by what stood there.
stale-is_null : is_null 8 (wrap 4 0 8 (null 8)) ≡ not (is_null 8 (wrap 4 0 8 stale))
unfolding is_null wrap unwrap null
stale-is_null = refl

-- The reference 2 ^ 22 - 1 gets a wrapper that is null.
last_is_null : is_null 4 (wrap_grant_ref x86 stale_word 4194303 0) ≡ true
unfolding is_null wrap_grant_ref wrap unwrap
last_is_null = refl

-- V4V_DOMID_NONE is got back from a wrapper of 8 bytes.
no_domain : unwrap_domain_id amd64 (wrap_domain_id amd64 stale 32756) ≡ 32756
no_domain = unwrap_domain_id-wrap_domain_id amd64 stale 32756 (omega arith)

wrap_domain_id-IsEquiv_example : IsEquiv (λ (x : Fin 4294967296). wrap_domain_id x86 stale_word x.0)
wrap_domain_id-IsEquiv_example = wrap_domain_id-IsEquiv stale_word

xen_grant_ref-wrap_grant_ref_example :
    ((xen_grant_ref x86 (wrap_grant_ref x86 stale_word 77 3) ≡ 77) ↔ (77 < 4194303))
    × (is_null 4 (wrap_grant_ref x86 stale_word 77 3) ≡ ((77 + 1) % 4194304 == 0) && (3 % 4 == 0))
xen_grant_ref-wrap_grant_ref_example =
    xen_grant_ref-wrap_grant_ref x86 stale_word 77 3 (omega arith)

-- XENBUS_STATE_CONNECTED and XENBUS_STATE_CLOSED.
connected_and_closed :
    ((same_xenbus_state amd64 (wrap_xenbus_state amd64 stale 4) (wrap_xenbus_state amd64 (null 8) 6)
        ≡ true)
      ↔ ◌≡◌ {A = ℕ} 4 6)
    × ((same_xenbus_state amd64 (null 8) (wrap_xenbus_state amd64 stale 4) ≡ true)
        ↔ ◌≡◌ {A = ℕ} 4 0)
    × ((is_nil_xenbus_transaction amd64 stale ≡ true) ↔ (stale ≡ xbt_nil amd64 stale))
connected_and_closed =
    same_xenbus_state-wrap_xenbus_state amd64 stale (null 8) stale 4 6 (omega arith) (omega arith)
