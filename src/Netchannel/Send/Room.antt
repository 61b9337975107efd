-- ===== src/Netchannel/Send/Room.antt =====
-- When `nc2_can_send_payload_bytes` returns 1: the room there is for the message.
use mathlib.Core.Path.{subst}
use winservice.Base.{
  ℕ, ◌+◌, ◌-◌, ◌*◌, ◌%◌, ◌≤◌, ◌<◌, ◌≡◌, ◌⊎◌, refl, sym, ◌∙◌, inl, inr, Bool, true, false,
  Bool-cases, Option, none, some, ltb, leb, if◌then◌else◌, arith,
}
use winservice.Base.Words.{add32, sub32}
use winservice.Base.PowerOfTwo.{IsSize, size-le}
use winservice.Netchannel.Pair.{RingPair, get_message_ptr, send_pad, avoid_ring_wrap}
use winservice.Netchannel.Pair.Wrap.{
  ring_would_wrap-eq, get_message_ptr-eq, pad_needed-eq, padded-start,
}
use winservice.Netchannel.Send.{send_retry, padded_bytes, can_send_payload_bytes}
use winservice.Netchannel.Send.Answer.{space, with_event, Answer, AnswerOf, send_retry-AnswerOf}

-- A ring of so many bytes, where what has been produced behind `cons` and the bytes that count as
-- available fit.
pub record Room (n cons : ℕ) (ring : RingPair) : Type 0 where
  pub bytes : ring.producer_payload_bytes ≡ n
  pub word : ring.local_prod_pvt < 4294967296
  pub fits : sub32 ring.local_prod_pvt cons + ring.local_prod_bytes_available ≤ n

-- Room for a message and the pad it may need.
pub record Ready (n nr_bytes cons : ℕ) (ring : RingPair) : Type 0 where
  pub whole : get_message_ptr ring + nr_bytes ≤ n
  pub room : Room n cons ring
  pub enough : nr_bytes ≤ ring.local_prod_bytes_available

module _ {n : ℕ} (size : IsSize n) (nr_bytes : ℕ) (small : n + nr_bytes < 65536)
    (le : nr_bytes ≤ n) where
  unpadded-Ready :
      (cons : ℕ) (ring : RingPair)
      → Room n cons ring
      → ring.local_prod_pvt % n + nr_bytes < n
      → nr_bytes ≤ ring.local_prod_bytes_available
      → Ready n nr_bytes cons ring
  unpadded-Ready cons ring room near enough = record {
    whole = omega (arith, get_message_ptr-eq size ring room.bytes, near);
    room = room;
    enough = enough;
  }

  send_pad-Ready :
      (cons : ℕ) (ring : RingPair)
      → Room n cons ring
      → n - ring.local_prod_pvt % n + nr_bytes ≤ ring.local_prod_bytes_available
      → Ready n nr_bytes cons (send_pad ring (n - ring.local_prod_pvt % n))
  unfolding send_pad
  send_pad-Ready cons ring room enough =
      let w = ring.local_prod_pvt in
      let pad = n - w % n in
      let start =
        get_message_ptr-eq size (send_pad ring pad) room.bytes ∙ padded-start size w room.word in
      let fewer : sub32 ring.local_prod_bytes_available pad
          ≡ ring.local_prod_bytes_available - pad =
        omega (arith, enough, room, small) in
      let further : sub32 (add32 w pad) cons ≡ sub32 w cons + pad =
        omega (arith, enough, room, small) in
      record {
        whole = omega (arith, start, le);
        room = record {
          bytes = room.bytes;
          word = omega arith;
          fits = omega (arith, fewer, further, enough, room);
        };
        enough = omega (arith, fewer, enough);
      }

  -- The bytes there have to be.
  padded_bytes-eq :
      (ring : RingPair)
      → ring.producer_payload_bytes ≡ n
      → ring.local_prod_pvt < 4294967296
      → padded_bytes ring nr_bytes ≡ (
          if leb n (ring.local_prod_pvt % n + nr_bytes)
          then nr_bytes + (n - ring.local_prod_pvt % n)
          else nr_bytes)
  unfolding padded_bytes
  padded_bytes-eq ring bytes word =
      let few : (nr_bytes + (n - ring.local_prod_pvt % n)) % 65536
          ≡ nr_bytes + (n - ring.local_prod_pvt % n) =
        omega (arith, small) in
      rw
        (
          ring_would_wrap-eq size ring nr_bytes bytes word le,
          pad_needed-eq size ring bytes (omega arith),
          few,
        )
        refl

  avoid_ring_wrap-Ready :
      (cons : ℕ) (ring : RingPair)
      → Room n cons ring
      → padded_bytes ring nr_bytes ≤ ring.local_prod_bytes_available
      → Ready n nr_bytes cons (avoid_ring_wrap ring nr_bytes)
  unfolding avoid_ring_wrap
  avoid_ring_wrap-Ready cons ring room enough =
      let w = ring.local_prod_pvt in
      let wraps = ring_would_wrap-eq size ring nr_bytes room.bytes room.word le in
      let needed = padded_bytes-eq ring room.bytes room.word in
      elim (Bool-cases (leb n (w % n + nr_bytes))) [
        | inr e ↦
            rw (wraps, e)
              (unpadded-Ready cons ring room (ground (arith, e))
                (ground (arith, e, needed, enough)))
        | inl e ↦
            rw (wraps, e, pad_needed-eq size ring room.bytes (omega arith))
              (send_pad-Ready cons ring room (ground (arith, e, needed, enough)))
      ]

  -- Twice the bytes is room for the pad, too.
  padded_bytes-twice :
      (ring : RingPair)
      → ring.producer_payload_bytes ≡ n
      → ring.local_prod_pvt < 4294967296
      → padded_bytes ring nr_bytes ≤ nr_bytes * 2
  padded_bytes-twice ring bytes word = ground (arith, padded_bytes-eq ring bytes word, le)

  -- Where the answer is 1, the message is ready behind the pad it needs, with the `cons` of before or
  -- one of those that were read.
  abbrev ReadyOf : (ℕ → ℕ) → ℕ → Option (RingPair × Bool) → Type 0
  ReadyOf reads cons none = Unit
  ReadyOf reads cons (some (after, false)) = Unit
  ReadyOf reads cons (some (after, true)) =
      (c : ℕ) × ((c ≡ cons) ⊎ ((i : ℕ) × (c ≡ reads i)))
      × Ready n nr_bytes c (avoid_ring_wrap after nr_bytes)

  Answer-ReadyOf :
      (reads : ℕ → ℕ) (cons : ℕ) (ring after : RingPair)
      → Room n cons ring
      → ((i : ℕ) → sub32 ring.local_prod_pvt (reads i) ≤ n)
      → Answer reads ring (padded_bytes ring nr_bytes) after true
      → ReadyOf reads cons (some (after, true))
  Answer-ReadyOf reads cons ring after room inside (k, event, enough, is) =
      let c = reads k in
      let here = inside k in
      let counted = record (with_event ring event) { local_prod_bytes_available = space ring c } in
      let left : space ring c ≡ n - sub32 ring.local_prod_pvt c =
        omega (arith, here, room, size-le size) in
      let has_room : Room n c counted = record {
        bytes = room.bytes;
        word = room.word;
        fits = omega (arith, left, here);
      } in
      let same : padded_bytes counted nr_bytes ≡ padded_bytes ring nr_bytes =
        padded_bytes-eq counted room.bytes room.word
        ∙ sym (padded_bytes-eq ring room.bytes room.word) in
      (
        c,
        inr (k, refl),
        subst (λ r. Ready n nr_bytes c (avoid_ring_wrap r nr_bytes)) (sym is)
            (avoid_ring_wrap-Ready c counted has_room (omega (arith, same, enough))),
      )

  AnswerOf-ReadyOf :
      (reads : ℕ → ℕ) (cons : ℕ) (ring : RingPair) (result : Option (RingPair × Bool))
      → Room n cons ring
      → ((i : ℕ) → sub32 ring.local_prod_pvt (reads i) ≤ n)
      → AnswerOf reads ring (padded_bytes ring nr_bytes) result
      → ReadyOf reads cons result
  AnswerOf-ReadyOf reads cons ring none room inside answer = tt
  AnswerOf-ReadyOf reads cons ring (some (after, false)) room inside answer = tt
  AnswerOf-ReadyOf reads cons ring (some (after, true)) room inside answer =
      Answer-ReadyOf reads cons ring after room inside answer

  can_send-ReadyOf :
      (fuel : ℕ) (reads : ℕ → ℕ) (cons : ℕ) (ring : RingPair)
      → Room n cons ring
      → ((i : ℕ) → sub32 ring.local_prod_pvt (reads i) ≤ n)
      → ReadyOf reads cons (can_send_payload_bytes fuel reads ring nr_bytes)
  unfolding can_send_payload_bytes
  can_send-ReadyOf fuel reads cons ring room inside =
      elim (Bool-cases (ltb (nr_bytes * 2) ring.local_prod_bytes_available)) [
        | inl e ↦ rw e (
          cons,
          inl refl,
          avoid_ring_wrap-Ready cons ring room
              (ground (arith, e, padded_bytes-twice ring room.bytes room.word)),
        )
        | inr e ↦ rw e (
            AnswerOf-ReadyOf reads cons ring
              (send_retry fuel reads 0 ring (padded_bytes ring nr_bytes)) room inside
              (send_retry-AnswerOf fuel reads 0 ring (padded_bytes ring nr_bytes)))
      ]

  -- On a ring of a power of two of bytes, where the bytes between the other end's `cons` and
  -- `local_prod_pvt` and those that count as available fit, and all that is read of `cons` is at
  -- most the ring's size behind: if `nc2_can_send_payload_bytes` returns 1 for a message that is not
  -- longer than the ring, then behind `__nc2_avoid_ring_wrap` the message lies in one piece before
  -- the end of the ring, at least its bytes are available, and what is produced and available still
  -- fits behind `cons`, as it was before or was read. The sizes of the ring and of the message are
  -- together below 2 ^ 16.
  pub can_send_payload_bytes-Ready :
      (fuel : ℕ) (reads : ℕ → ℕ) (cons : ℕ) (ring after : RingPair)
      → Room n cons ring
      → ((i : ℕ) → sub32 ring.local_prod_pvt (reads i) ≤ n)
      → can_send_payload_bytes fuel reads ring nr_bytes ≡ some (after, true)
      → (c : ℕ) × ((c ≡ cons) ⊎ ((i : ℕ) × (c ≡ reads i)))
        × Ready n nr_bytes c (avoid_ring_wrap after nr_bytes)
  can_send_payload_bytes-Ready fuel reads cons ring after room inside sent =
      subst (ReadyOf reads cons) sent (can_send-ReadyOf fuel reads cons ring room inside)
