-- ===== src/Ring/Tests.antt =====
-- A session over a ring of eight entries, and runs of the macros.
use winservice.Base.{ℕ, ◌≡◌, refl, ◌⊎◌, [], ◌∷◌, arith}
use winservice.Ring.Size.{rd32, ring_size}
use winservice.Ring.Size.Floor.{IsFloor, rd32-IsFloor}
use winservice.Ring.Macros.{
  untouched, req, rsp, Sring, ring_full, check_notify, unconsumed_requests, unconsumed_responses,
  shared_ring_init, front_ring_init, back_ring_init, ring_push_requests, ring_push_responses,
  set_req_event, ring_index,
}
use winservice.Ring.Session.{
  asleep, Session, Reach, here, step, queue_request, publish_requests, notify, take_response,
  take_request, queue_response, publish_responses, arm, recheck, queueing, publishing, notifying,
  receiving, taking, answering, replying, arming, rechecking,
}
use winservice.Ring.Session.Delivery.{
  fresh_session, HasRoom, InOrder, WillNotify, Reach-InOrder, Reach-notified,
}

rd32-odd : rd32 1000000 ≡ 524288
unfolding rd32
rd32-odd = refl

rd32-IsFloor_example : IsFloor 32 300 (rd32 300)
rd32-IsFloor_example = rd32-IsFloor 300 (omega arith) (omega arith)

abbrev page : Sring ℕ ℕ
page = record {
  req_prod = 7;
  req_event = 7;
  rsp_prod = 7;
  rsp_event = 7;
  pad = [];
  ring = λ _. untouched;
}

eight : ring_size 128 8 ≡ 8
unfolding ring_size
eight = refl

has_room : HasRoom 128 8
has_room = record { some_entry = omega arith; few = omega arith }

abbrev begun : Session ℕ ℕ
begun = fresh_session 128 8 page

-- A request is queued, published and taken, answered, and the answer is read.
abbrev asked : Session ℕ ℕ
asked = take_request (notify 0 1 (publish_requests (queue_request 41 begun)))

abbrev answered : Session ℕ ℕ
answered = take_response (publish_responses (queue_response 42 asked))

answered-Reach : Reach begun answered
unfolding shared_ring_init front_ring_init back_ring_init ring_full check_notify unconsumed_requests
    unconsumed_responses ring_push_requests ring_push_responses
answered-Reach =
    step
      (step
        (step
          (step
            (step (step (step here (queueing 41 refl refl)) (publishing refl)) (notifying 0 1 refl))
            (taking refl refl))
          (answering 42 refl refl))
        (replying refl))
      (receiving refl refl)

-- The back end goes to sleep, and the front end publishes one more request.
abbrev waiting : Session ℕ ℕ
waiting = publish_requests (queue_request 43 (recheck (arm answered)))

waiting-Reach : Reach begun waiting
unfolding shared_ring_init front_ring_init back_ring_init ring_full check_notify unconsumed_requests
    ring_push_requests ring_push_responses set_req_event
waiting-Reach =
    step
      (step (step (step answered-Reach (arming refl refl)) (rechecking refl))
        (queueing 43 refl refl))
      (publishing refl)

waiting-asleep : waiting.back_phase ≡ asleep
unfolding shared_ring_init front_ring_init back_ring_init ring_full check_notify unconsumed_requests
    ring_push_requests ring_push_responses set_req_event
waiting-asleep = refl

Reach-InOrder_example :
    InOrder (ring_size 128 8) req waiting.taken_requests waiting.requests
    × InOrder (ring_size 128 8) rsp waiting.taken_responses waiting.responses
Reach-InOrder_example = Reach-InOrder page has_room waiting-Reach

Reach-notified_example : (unconsumed_requests waiting.sring waiting.back ≡ 0) ⊎ WillNotify waiting
Reach-notified_example = Reach-notified page has_room waiting-Reach waiting-asleep

-- What the back end has read.
waiting-taken : waiting.taken_requests ≡ req 41 ∷ []
unfolding shared_ring_init front_ring_init back_ring_init ring_index ring_push_requests
waiting-taken = refl
