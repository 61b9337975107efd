-- ===== src/Wrapper/Xenbus.antt =====
-- The states and the transactions of the Xenbus, inc/xsapi.h.
use native.Mathlib.Nat.{mod-eq_of_lt}
use winservice.Base.{ℕ, zero, suc, ◌<◌, ◌≡◌, ◌↔◌, ◌==◌, refl, sym, ap, ◌∙◌, Bool, true, arith, ◌^◌}
use winservice.Wrapper.{Wrapped, Machine, x86, amd64, width, wrap, unwrap, null, is_null}
use winservice.Wrapper.Domain.{int_fits}
use winservice.Wrapper.Bytes.{unwrap-wrap, wrap-unwrap}

-- MAKE_WRAPPER_PRIV(XENBUS_STATE, int)
unfoldable pub wrap_xenbus_state : (m : Machine) → Wrapped (width m) → ℕ → Wrapped (width m)
unfolding wrap
wrap_xenbus_state m ret x = wrap 4 x (width m) ret

unfoldable pub unwrap_xenbus_state : (m : Machine) → Wrapped (width m) → ℕ
unfolding unwrap
unwrap_xenbus_state m x = unwrap 4 (width m) x

unfoldable pub same_xenbus_state : (m : Machine) (a b : Wrapped (width m)) → Bool
unfolding unwrap_xenbus_state
same_xenbus_state m a b = unwrap_xenbus_state m a == unwrap_xenbus_state m b

-- `XBT_NIL`: the number of a pointer, which has the size of the wrapper.
unfoldable pub xbt_nil : (m : Machine) → Wrapped (width m) → Wrapped (width m)
unfolding wrap
xbt_nil m ret = wrap (width m) 1 (width m) ret

unfoldable pub is_nil_xenbus_transaction : (m : Machine) → Wrapped (width m) → Bool
unfolding unwrap
is_nil_xenbus_transaction m xbt = unwrap (width m) (width m) xbt == 1

pub unwrap-null : (k n : ℕ) → unwrap k n (null n) ≡ 0
unfolding unwrap null
unwrap-null zero n = refl
unwrap-null (suc k) zero = refl
unwrap-null (suc k) (suc n) = rw (unwrap-null k n) refl

-- Of a wrapper with all bytes of its number, the number decides.
pub is_null-null : (n : ℕ) (x : Wrapped n) → (is_null n x ≡ true) ↔ (x ≡ null n)
unfolding is_null
is_null-null n x = (
  λ e.
      let empty : unwrap n n x ≡ unwrap n n (null n) = rw (unwrap-null n n) (ground (arith, e)) in
      sym (wrap-unwrap n (null n) x)
      ∙ ap (λ v. wrap n v n (null n)) empty
      ∙ wrap-unwrap n (null n) (null n),
  λ e. rw (e, unwrap-null n n) refl,
)

unwrap_xenbus_state-wrap_xenbus_state :
    (m : Machine) (ret : Wrapped (width m)) (x : ℕ)
    → x < 4294967296
    → unwrap_xenbus_state m (wrap_xenbus_state m ret x) ≡ x
unfolding unwrap_xenbus_state wrap_xenbus_state
unwrap_xenbus_state-wrap_xenbus_state m ret x small =
    unwrap-wrap 4 x (width m) ret (int_fits m) ∙ mod-eq_of_lt small

one_lem :
    (m : Machine) (ret : Wrapped (width m))
    → unwrap (width m) (width m) (wrap (width m) 1 (width m) ret) ≡ 1
one_lem x86 ret = unwrap-wrap 4 1 4 ret (omega arith) ∙ mod-eq_of_lt {m = 256 ^ 4} (omega arith)
one_lem amd64 ret = unwrap-wrap 8 1 8 ret (omega arith) ∙ mod-eq_of_lt {m = 256 ^ 8} (omega arith)

is_nil_xenbus_transaction-xbt_nil :
    (m : Machine) (ret xbt : Wrapped (width m))
    → (is_nil_xenbus_transaction m xbt ≡ true) ↔ (xbt ≡ xbt_nil m ret)
unfolding is_nil_xenbus_transaction xbt_nil
is_nil_xenbus_transaction-xbt_nil m ret xbt = (
  λ e.
      let one : unwrap (width m) (width m) xbt ≡ 1 = ground (arith, e) in
      sym (wrap-unwrap (width m) ret xbt) ∙ ap (λ v. wrap (width m) v (width m) ret) one,
  λ e. rw (e, one_lem m ret) refl,
)

-- On both machines and whatever the bytes of the wrappers were: two states are the same exactly if
-- they are of the same number, and a state is the same as the null state exactly if its number is
-- 0. A transaction is nil exactly if it is XBT_NIL.
pub same_xenbus_state-wrap_xenbus_state :
    (m : Machine) (ret ret' xbt : Wrapped (width m)) (x y : ℕ)
    → x < 4294967296
    → y < 4294967296
    → ((same_xenbus_state m (wrap_xenbus_state m ret x) (wrap_xenbus_state m ret' y) ≡ true)
        ↔ (x ≡ y))
      × ((same_xenbus_state m (null (width m)) (wrap_xenbus_state m ret x) ≡ true) ↔ (x ≡ 0))
      × ((is_nil_xenbus_transaction m xbt ≡ true) ↔ (xbt ≡ xbt_nil m ret))
unfolding same_xenbus_state unwrap_xenbus_state
same_xenbus_state-wrap_xenbus_state m ret ret' xbt x y small small' =
    let first = unwrap_xenbus_state-wrap_xenbus_state m ret x small in
    let second = unwrap_xenbus_state-wrap_xenbus_state m ret' y small' in
    let empty : unwrap_xenbus_state m (null (width m)) ≡ 0 = unwrap-null 4 (width m) in
    (
      rw (same_xenbus_state, first, second) (λ e. ground (arith, e), λ e. ground (arith, e)),
      rw (same_xenbus_state, first, empty) (λ e. ground (arith, e), λ e. ground (arith, e)),
      is_nil_xenbus_transaction-xbt_nil m ret xbt,
    )
