-- ===== src/Wrapper/Xenops.antt =====
-- The values of inc/xenops.h, inc/xs_private.h, inc/v2v.h and inc/v2vk.h.
use Prim.Native.Nat.{bit_xor}
use winservice.Base.{ℕ, ◌/◌, ◌≡◌, ◌⊎◌, ◌↔◌, ◌==◌, inl, inr, refl, Bool, true, leb, ap, arith}
use winservice.Wrapper.{Wrapped, Machine, width, unwrap, null, is_null}
use winservice.Wrapper.Xenbus.{unwrap-null, is_null-null}

-- `xen_GRANT_REF` of inc/xenops.h, where a GRANT_REF wraps an `unsigned`.
unfoldable pub xenops_xen_grant_ref : (m : Machine) → Wrapped (width m) → ℕ
unfolding unwrap
xenops_xen_grant_ref m g = let res = unwrap 4 (width m) g in bit_xor res 0xdeadbeef / 1024

-- A GRANT_MAP_HANDLE has 8 bytes on both machines.
abbrev null_grant_map_handle : Wrapped 8
null_grant_map_handle = null 8

unfoldable is_null_grant_map_handle : Wrapped 8 → Bool
unfolding unwrap
is_null_grant_map_handle gmh = unwrap 8 8 gmh == 0

is_null_grant_map_handle-null :
    (gmh : Wrapped 8) → (is_null_grant_map_handle gmh ≡ true) ↔ (gmh ≡ null_grant_map_handle)
unfolding is_null_grant_map_handle is_null
is_null_grant_map_handle-null gmh = is_null-null 8 gmh

record WriteOnCloseHandle : Type 0 where
  h : ℕ

abbrev wrap_write_on_close_handle : ℕ → WriteOnCloseHandle
wrap_write_on_close_handle x = record { h = x }

abbrev unwrap_write_on_close_handle : WriteOnCloseHandle → ℕ
unwrap_write_on_close_handle handle = handle.h

abbrev null_write_on_close_handle : WriteOnCloseHandle
null_write_on_close_handle = wrap_write_on_close_handle 0

abbrev is_null_write_on_close_handle : WriteOnCloseHandle → Bool
is_null_write_on_close_handle handle = handle.h == 0

is_null_write_on_close_handle-null :
    (handle : WriteOnCloseHandle)
    → (is_null_write_on_close_handle handle ≡ true) ↔ (handle ≡ null_write_on_close_handle)
is_null_write_on_close_handle-null handle = (
  λ e. let zero : handle.h ≡ 0 = ground (arith, e) in ap wrap_write_on_close_handle zero,
  λ e. rw e refl,
)

data V2vEndpointState : Type 0 where
  unknown unready listening connected disconnecting disconnected crashed : V2vEndpointState

-- The numbers of the enumeration.
abbrev v2v_state : V2vEndpointState → ℕ
v2v_state unknown = 0
v2v_state unready = 0x123
v2v_state listening = 0x124
v2v_state connected = 0x125
v2v_state disconnecting = 0x126
v2v_state disconnected = 0x127
v2v_state crashed = 0x128

abbrev v2v_state_requests_disconnect : V2vEndpointState → Bool
v2v_state_requests_disconnect state = leb (v2v_state disconnecting) (v2v_state state)

-- The remote end has gone or asks to go.
abbrev Gone : V2vEndpointState → Type 0
Gone state = (state ≡ disconnecting) ⊎ (state ≡ disconnected) ⊎ (state ≡ crashed)

requests_disconnect-Gone :
    (state : V2vEndpointState) → v2v_state_requests_disconnect state ≡ true → Gone state
requests_disconnect-Gone unknown e = absurd (ground arith)
requests_disconnect-Gone unready e = absurd (ground arith)
requests_disconnect-Gone listening e = absurd (ground arith)
requests_disconnect-Gone connected e = absurd (ground arith)
requests_disconnect-Gone disconnecting e = inl refl
requests_disconnect-Gone disconnected e = inr (inl refl)
requests_disconnect-Gone crashed e = inr (inr refl)

Gone-requests_disconnect :
    (state : V2vEndpointState) → Gone state → v2v_state_requests_disconnect state ≡ true
Gone-requests_disconnect state (inl e) = rw e refl
Gone-requests_disconnect state (inr (inl e)) = rw e refl
Gone-requests_disconnect state (inr (inr e)) = rw e refl

-- A wrapper that is null has a reference of the hypervisor.
null_reference : (m : Machine) → xenops_xen_grant_ref m (null (width m)) ≡ 0xdeadbeef / 1024
unfolding xenops_xen_grant_ref
null_reference m = rw (unwrap-null 4 (width m)) refl
