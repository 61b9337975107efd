-- ===== src/Netchannel/Pair/Events.antt =====
-- When the moves of the pointers of a ring pair notify the other end.
use mathlib.Core.Path.{subst}
use winservice.Base.{
  ℕ, ◌+◌, ◌-◌, ◌≤◌, ◌<◌, ◌==◌, ◌≡◌, refl, inl, inr, Bool, true, false, Bool-cases, leb, arith,
}
use winservice.Base.Words.{add32, low32}
use winservice.Netchannel.Pair.{
  NetchannelSringFields, RingPair, crosses, flush_would_trigger_event, flush_ring,
  final_check_for_messages,
}

-- With counters that do not wrap around, the event is crossed if it is not beyond the new pointer.
crosses-low32 :
    (o n e : ℕ)
    → o ≤ n
    → n - o < 4294967296
    → o < e
    → e ≤ o + 4294967296
    → crosses (low32 o) (low32 n) (low32 e) ≡ leb e n
crosses-low32 o n e le near after far = elim (Bool-cases (leb e n)) [
  | inl c ↦ ground (arith, c)
  | inr c ↦ ground (arith, c)
]

-- `nc2_flush_ring` publishes `local_prod_pvt`, and it notifies the other end exactly if the event
-- is not beyond it, whatever of the counters is cut off: `o`, `n` and `e` are the published
-- position, the new one and the event, the event less than a word ahead of the published one; and
-- `__nc2_flush_would_trigger_event` foretells it.
pub flush_ring-crosses :
    (remote : NetchannelSringFields) (ring : RingPair) (o n e : ℕ)
    → ring.local_prod ≡ low32 o
    → ring.local_prod_pvt ≡ low32 n
    → remote.prod_event ≡ low32 e
    → o ≤ n
    → n - o < 4294967296
    → o < e
    → e ≤ o + 4294967296
    → (flush_ring remote ring ≡ (
      record ring {
        local_endpoint = record (ring.local_endpoint) { prod = low32 n };
        local_prod = low32 n;
      },
      leb e n,
    ))
      × (flush_would_trigger_event remote ring ≡ leb e n)
unfolding flush_ring flush_would_trigger_event
flush_ring-crosses remote ring o n e old new event le near after far =
    let same = crosses-low32 o n e le near after far in
    (rw (old, new, event, same) refl, rw (old, new, event, same) refl)

-- A move on from the position that the event is set behind.
pub crosses_next :
    (c d : ℕ) → c < 4294967296 → 0 < d → d < 4294967296 → crosses c (add32 c d) (add32 c 1) ≡ true
crosses_next c d word pos near = ground arith

-- The other end, gone on from a position that has been read.
abbrev NotifiedOf : ℕ → ℕ → (RingPair × Bool) → RingPair → ℕ → Type 0
NotifiedOf prod second (asleep, true) sender d = Unit
NotifiedOf prod second (asleep, false) sender d =
    (prod ≡ second)
    × ((flush_ring (asleep.local_endpoint)
          (record sender { local_prod = second; local_prod_pvt = add32 second d })).1
        ≡ true)

final_check-NotifiedOf :
    (first second : ℕ) (ring : RingPair) (prod : ℕ)
    → second < 4294967296
    → (sender : RingPair) (d : ℕ) → 0 < d
    → d < 4294967296
    → NotifiedOf prod second (final_check_for_messages first second ring prod) sender d
unfolding final_check_for_messages flush_ring
final_check-NotifiedOf first second ring prod word sender d pos near =
    elim (Bool-cases (prod == first)) [
      | inr e ↦ rw e tt
      | inl e ↦ elim (Bool-cases (prod == second)) [
        | inr s ↦ rw (e, s) tt
        | inl s ↦
            let same : prod ≡ second = ground (arith, s) in
            rw (e, s) (same, rw same (crosses_next second d word pos near))
      ]
    ]

-- The consumer does not miss a message: if `nc2_final_check_for_messages` returns 0, the position
-- is what it read of the producer's, and when the producer moves on from there, by whatever less
-- than a word, and flushes, it is told to notify the consumer.
pub final_check_for_messages-notified :
    (first second : ℕ) (ring asleep : RingPair) (prod : ℕ)
    → second < 4294967296
    → final_check_for_messages first second ring prod ≡ (asleep, false)
    → (sender : RingPair) (d : ℕ) → 0 < d
    → d < 4294967296
    → (prod ≡ second)
      × ((flush_ring
            (asleep.local_endpoint)
            (record sender { local_prod = second; local_prod_pvt = add32 second d })).1
          ≡ true)
final_check_for_messages-notified first second ring asleep prod word idle sender d pos near =
    subst (λ result. NotifiedOf prod second result sender d) idle
      (final_check-NotifiedOf first second ring prod word sender d pos near)
