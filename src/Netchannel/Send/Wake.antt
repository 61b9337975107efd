-- ===== src/Netchannel/Send/Wake.antt =====
-- When `nc2_can_send_payload_bytes` returns 0: the notification that there is space again.
use mathlib.Core.Path.{subst}
use winservice.Base.{
  ℕ, ◌+◌, ◌*◌, ◌<◌, ◌≡◌, inl, inr, Bool, true, false, Bool-cases, Option, none, some, ltb,
}
use winservice.Base.Words.{add32}
use winservice.Netchannel.Pair.{RingPair, finish_messages}
use winservice.Netchannel.Pair.Events.{crosses_next}
use winservice.Netchannel.Send.{send_retry, padded_bytes, can_send_payload_bytes}
use winservice.Netchannel.Send.Answer.{space, AnswerOf, send_retry-AnswerOf}

module _ (reads : ℕ → ℕ) (ring : RingPair) (nr_bytes : ℕ) (words : (i : ℕ) → reads i < 4294967296)
    (peer : RingPair) (d : ℕ) (pos : 0 < d) (near : d < 4294967296) where
  abbrev WokenOf : Option (RingPair × Bool) → Type 0
  WokenOf none = Unit
  WokenOf (some (asleep, true)) = Unit
  WokenOf (some (asleep, false)) =
      (k : ℕ) × (space ring (reads k) < padded_bytes ring nr_bytes)
      × (reads k ≡ reads (k + 1))
      × ((finish_messages (asleep.local_endpoint) (record peer {
        local_cons = reads (k + 1);
        local_cons_pvt = add32 (reads (k + 1)) d;
      })).1
          ≡ true)

  AnswerOf-WokenOf :
      (result : Option (RingPair × Bool))
      → AnswerOf reads ring (padded_bytes ring nr_bytes) result
      → WokenOf result
  unfolding finish_messages
  AnswerOf-WokenOf none answer = tt
  AnswerOf-WokenOf (some (asleep, true)) answer = tt
  AnswerOf-WokenOf (some (asleep, false)) (k, short, same, is) =
      (k, short, same, rw (is, same) (crosses_next (reads (k + 1)) d (words (k + 1)) pos near))

  can_send-WokenOf : (fuel : ℕ) → WokenOf (can_send_payload_bytes fuel reads ring nr_bytes)
  unfolding can_send_payload_bytes
  can_send-WokenOf fuel = elim (Bool-cases (ltb (nr_bytes * 2) ring.local_prod_bytes_available)) [
    | inl e ↦ rw e tt
    | inr e ↦ rw e (
        AnswerOf-WokenOf (send_retry fuel reads 0 ring (padded_bytes ring nr_bytes))
          (send_retry-AnswerOf fuel reads 0 ring (padded_bytes ring nr_bytes)))
  ]

  -- The sender does not miss that there is space: if `nc2_can_send_payload_bytes` returns 0, then two
  -- reads of the other end's `cons` running gave the same position, with which the space is less
  -- than the message and its pad, and when the other end moves on from there, by whatever less than
  -- a word, and finishes its messages, it is told to notify the sender.
  pub can_send_payload_bytes-woken :
      (fuel : ℕ) (asleep : RingPair)
      → can_send_payload_bytes fuel reads ring nr_bytes ≡ some (asleep, false)
      → (k : ℕ) × (space ring (reads k) < padded_bytes ring nr_bytes)
        × (reads k ≡ reads (k + 1))
        × ((finish_messages (asleep.local_endpoint) (record peer {
          local_cons = reads (k + 1);
          local_cons_pvt = add32 (reads (k + 1)) d;
        })).1
            ≡ true)
  can_send_payload_bytes-woken fuel asleep refused = subst WokenOf refused (can_send-WokenOf fuel)
