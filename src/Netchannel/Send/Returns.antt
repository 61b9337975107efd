-- ===== src/Netchannel/Send/Returns.antt =====
-- When `nc2_can_send_payload_bytes` returns.
use native.Mathlib.Nat.{zero-add}
use winservice.Base.{
  ℕ, zero, suc, ◌+◌, ◌*◌, ◌<◌, ◌==◌, ◌≡◌, refl, inl, inr, Bool, true, false, Bool-cases, Option,
  some, ltb, leb, arith,
}
use winservice.Base.Words.{sub32}
use winservice.Netchannel.Pair.{RingPair}
use winservice.Netchannel.Send.{set_cons_event, send_retry, padded_bytes, can_send_payload_bytes}

-- It has returned something.
abbrev pub Returned : Option (RingPair × Bool) → Type 0
Returned result = (ring : RingPair) × (answer : Bool) × (result ≡ some (ring, answer))

send_retry-Returned :
    (fuel : ℕ) (reads : ℕ → ℕ) (i j : ℕ) (ring : RingPair) (nr_bytes : ℕ)
    → j < fuel
    → reads (i + 2 * j) ≡ reads (i + 2 * j + 1)
    → Returned (send_retry fuel reads i ring nr_bytes)
unfolding send_retry
send_retry-Returned zero reads i j ring nr_bytes lt same = absurd (omega arith)
send_retry-Returned (suc fuel) reads i zero ring nr_bytes lt same =
    let cons = reads i in
    let space = sub32 ring.producer_payload_bytes (sub32 ring.local_prod_pvt cons) in
    let unchanged : (cons == reads (i + 1)) ≡ true = ground (arith, same) in
    elim (Bool-cases (leb nr_bytes space)) [
      | inl e ↦ (record ring { local_prod_bytes_available = space }, true, rw e refl)
      | inr e ↦ (set_cons_event ring cons, false, rw (e, unchanged) refl)
    ]
send_retry-Returned (suc fuel) reads i (suc j) ring nr_bytes lt same =
    let cons = reads i in
    let space = sub32 ring.producer_payload_bytes (sub32 ring.local_prod_pvt cons) in
    let later : i + 2 + 2 * j ≡ i + 2 * suc j = omega arith in
    let (after, answer, again) =
      send_retry-Returned fuel reads (i + 2) j (set_cons_event ring cons) nr_bytes (omega arith)
        (rw later same) in
    elim (Bool-cases (leb nr_bytes space)) [
      | inl e ↦ (record ring { local_prod_bytes_available = space }, true, rw e refl)
      | inr e ↦ elim (Bool-cases (cons == reads (i + 1))) [
        | inl s ↦ (set_cons_event ring cons, false, rw (e, s) refl)
        | inr d ↦ (after, answer, rw (e, d) again)
      ]
    ]

-- `nc2_can_send_payload_bytes` returns as soon as two reads of `cons` in one round give the same,
-- after at most as many `goto retry` as there are rounds before.
pub can_send_payload_bytes-Returned :
    (fuel : ℕ) (reads : ℕ → ℕ) (j : ℕ) (ring : RingPair) (nr_bytes : ℕ)
    → j < fuel
    → reads (2 * j) ≡ reads (2 * j + 1)
    → Returned (can_send_payload_bytes fuel reads ring nr_bytes)
unfolding can_send_payload_bytes
can_send_payload_bytes-Returned fuel reads j ring nr_bytes lt same =
    elim (Bool-cases (ltb (nr_bytes * 2) ring.local_prod_bytes_available)) [
      | inl e ↦ (ring, true, rw e refl)
      | inr e ↦ rw e (
          send_retry-Returned fuel reads 0 j ring (padded_bytes ring nr_bytes) lt
            (rw (zero-add (2 * j)) same))
    ]
