-- ===== src/Netchannel/Send/Answer.antt =====
-- What `nc2_can_send_payload_bytes` leaves with each answer.
use winservice.Base.{
  ℕ, zero, suc, ◌+◌, ◌≤◌, ◌<◌, ◌==◌, ◌≡◌, refl, inl, inr, Bool, true, false, Bool-cases, Option,
  none, some, leb, arith,
}
use winservice.Base.Words.{add32, sub32}
use winservice.Netchannel.Pair.{RingPair}
use winservice.Netchannel.Send.{set_cons_event, send_retry}

-- The space behind what has been produced, with a value of the other end's `cons`.
abbrev pub space : RingPair → ℕ → ℕ
space ring cons = sub32 ring.producer_payload_bytes (sub32 ring.local_prod_pvt cons)

abbrev pub with_event : RingPair → ℕ → RingPair
with_event ring event = record ring {
  local_endpoint = record (ring.local_endpoint) { cons_event = event };
}

-- There is space with one of the reads, and that is what is available; or there is not with two
-- reads that give the same, and the event is set behind them.
abbrev pub Answer : (ℕ → ℕ) → RingPair → ℕ → RingPair → Bool → Type 0
Answer reads ring nr_bytes after true =
    (k : ℕ) × (event : ℕ) × (nr_bytes ≤ space ring (reads k))
    × (after ≡ record (with_event ring event) { local_prod_bytes_available = space ring (reads k) })
Answer reads ring nr_bytes after false =
    (k : ℕ) × (space ring (reads k) < nr_bytes)
    × (reads k ≡ reads (k + 1))
    × (after ≡ with_event ring (add32 (reads k) 1))

abbrev pub AnswerOf : (ℕ → ℕ) → RingPair → ℕ → Option (RingPair × Bool) → Type 0
AnswerOf reads ring nr_bytes none = Unit
AnswerOf reads ring nr_bytes (some (after, answer)) = Answer reads ring nr_bytes after answer

-- The event that a round before has set is of no account.
forget_event :
    (reads : ℕ → ℕ) (ring : RingPair) (nr_bytes event : ℕ) (result : Option (RingPair × Bool))
    → AnswerOf reads (with_event ring event) nr_bytes result
    → AnswerOf reads ring nr_bytes result
forget_event reads ring nr_bytes event none h = tt
forget_event reads ring nr_bytes event (some (after, true)) h = h
forget_event reads ring nr_bytes event (some (after, false)) h = h

pub send_retry-AnswerOf :
    (fuel : ℕ) (reads : ℕ → ℕ) (i : ℕ) (ring : RingPair) (nr_bytes : ℕ)
    → AnswerOf reads ring nr_bytes (send_retry fuel reads i ring nr_bytes)
unfolding send_retry
send_retry-AnswerOf zero reads i ring nr_bytes = tt
send_retry-AnswerOf (suc fuel) reads i ring nr_bytes =
    let cons = reads i in
    elim (Bool-cases (leb nr_bytes (space ring cons))) [
      | inl e ↦ rw e (i, ring.local_endpoint.cons_event, ground (arith, e), refl)
      | inr e ↦ elim (Bool-cases (cons == reads (i + 1))) [
        | inl s ↦ rw (e, s) (i, ground (arith, e), ground (arith, s), refl)
        | inr d ↦
            rw (e, d)
              (forget_event reads ring nr_bytes (add32 cons 1)
                (send_retry fuel reads (i + 2) (set_cons_event ring cons) nr_bytes)
                (send_retry-AnswerOf fuel reads (i + 2) (set_cons_event ring cons) nr_bytes))
      ]
    ]
