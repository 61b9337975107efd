-- ===== src/Netchannel/Pair/Place.antt =====
-- Where the messages of a byte ring lie.
use native.Mathlib.Nat.{mod-eq_of_lt, mod-lt}
use winservice.Base.{ℕ, ◌+◌, ◌*◌, ◌%◌, ◌^◌, ◌≤◌, ◌≡◌, inl, inr, false, Bool-cases, ltb, leb, arith}
use winservice.Base.PowerOfTwo.{IsSize, size-pos, low_bits}
use winservice.Netchannel.Pair.{RingPair, incoming_message, contained_in_cons_ring}

-- On a consumer ring of a power of two of bytes, with addresses for twice as many from its start, the
-- next message is at its pointer's place in the ring, and `__nc2_contained_in_cons_ring` says of it,
-- whatever its size, exactly if it ends within the ring.
pub contained_in_cons_ring-incoming :
    {n : ℕ} (size : IsSize n) (bits : ℕ) (ring : RingPair) (m : ℕ)
    → ring.consumer_payload_bytes ≡ n
    → ring.consumer_payload + 2 * n ≤ 2 ^ bits
    → contained_in_cons_ring bits ring (incoming_message bits ring) m
      ≡ leb (ring.local_cons_pvt % n + m) n
unfolding contained_in_cons_ring incoming_message
contained_in_cons_ring-incoming {n} size bits ring m bytes far =
    let w = ring.local_cons_pvt in
    let base = ring.consumer_payload in
    let pos = size-pos size in
    let below = mod-lt w pos in
    let top = 2 ^ bits in
    let at : (base + w % n) % top ≡ base + w % n = mod-eq_of_lt (omega (arith, below, far)) in
    let end : (base + n) % top ≡ base + n = mod-eq_of_lt (omega (arith, pos, far)) in
    let behind : ltb (base + w % n) base ≡ false = ground arith in
    rw (bytes, low_bits size w, at, end, behind)
      (elim (Bool-cases (ltb n m)) [
        | inl e ↦ rw e (ground (arith, e))
        | inr e ↦
            let inside : (base + w % n + m) % top ≡ base + w % n + m =
              mod-eq_of_lt (ground (arith, e, below, far)) in
            rw (e, inside) (ground arith)
      ])
