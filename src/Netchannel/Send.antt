-- ===== src/Netchannel/Send.antt =====
-- `nc2_can_send_payload_bytes` of inc/vring.h.
pub mod Answer
pub mod Room
pub mod Returns
pub mod Wake
use winservice.Base.{
  ℕ, zero, suc, ◌+◌, ◌*◌, ◌%◌, ◌==◌, Bool, true, false, Option, none, some, ltb, leb, if◌then◌else◌,
}
use winservice.Base.Words.{add32, sub32}
use winservice.Netchannel.Pair.{RingPair, ring_would_wrap, pad_needed}

abbrev pub set_cons_event : RingPair → ℕ → RingPair
set_cons_event ring cons = record ring {
  local_endpoint = record (ring.local_endpoint) { cons_event = add32 cons 1 };
}

-- From `retry` on: `reads i` is what the read number `i` of the other end's `cons` gives, and the
-- fuel is spent at each `goto retry`.
unfoldable pub send_retry : ℕ → (ℕ → ℕ) → ℕ → RingPair → ℕ → Option (RingPair × Bool)
send_retry zero reads i ring nr_bytes = none
send_retry (suc fuel) reads i ring nr_bytes =
    let cons = reads i in
    let space = sub32 ring.producer_payload_bytes (sub32 ring.local_prod_pvt cons) in
    let again = send_retry fuel reads (i + 2) (set_cons_event ring cons) nr_bytes in
    if leb nr_bytes space
    then some (record ring { local_prod_bytes_available = space }, true)
    else if cons == reads (i + 1)
    then some (set_cons_event ring cons, false)
    else again

-- The bytes there have to be, with the pad where one is needed.
unfoldable pub padded_bytes : RingPair → ℕ → ℕ
padded_bytes ring nr_bytes =
    if ring_would_wrap ring nr_bytes then (nr_bytes + pad_needed ring) % 65536 else nr_bytes

unfoldable pub can_send_payload_bytes : ℕ → (ℕ → ℕ) → RingPair → ℕ → Option (RingPair × Bool)
can_send_payload_bytes fuel reads ring nr_bytes =
    if ltb (nr_bytes * 2) ring.local_prod_bytes_available
    then some (ring, true)
    else send_retry fuel reads 0 ring (padded_bytes ring nr_bytes)
