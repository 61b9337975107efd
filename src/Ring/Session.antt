-- ===== src/Ring/Session.antt =====
-- The two ends of a ring that use the macros of inc/ring.h as its comments say: the front end queues
-- a request where the ring is not full, the back end answers requests that it has taken, and before
-- it sleeps it makes the final check. A step makes one access to the shared ring that the other
-- end can see, so `RING_PUSH_REQUESTS_AND_CHECK_NOTIFY` and `RING_FINAL_CHECK_FOR_REQUESTS` are two
-- steps each, and the steps of the ends are interleaved at will. The front end polls for responses.

pub mod Slots
pub mod Invariant
pub mod Indexes
pub mod Wake
pub mod Moves
pub mod BackMoves
pub mod Delivery
use winservice.Base.{ℕ, ◌==◌, ◌≡◌, Bool, true, false, List, [], ◌∷◌, ◌++◌, if◌then◌else◌}
use winservice.Base.Words.{add32, sub32}
use winservice.Ring.Macros.{
  SringEntry, req, rsp, Sring, FrontRing, BackRing, store, ring_index, ring_full, check_notify,
  unconsumed_requests, unconsumed_responses, ring_push_requests, ring_push_responses, set_req_event,
}

-- Between `req_prod = __new` and the reading of `req_event`: `__old` and `__new`.
pub data FrontPhase : Type 0 where
  running : FrontPhase
  published : ℕ → ℕ → FrontPhase

-- At work, behind the setting of the event, and waiting for a notification.
pub data BackPhase : Type 0 where
  awake armed asleep : BackPhase

-- The lists are what has been queued and what has been read from the ring since the start.
pub record Session (Q P : Type 0) : Type 0 where
  pub sring : Sring Q P
  pub front : FrontRing
  pub back : BackRing
  pub front_phase : FrontPhase
  pub back_phase : BackPhase
  pub requests : List Q
  pub taken_requests : List (SringEntry Q P)
  pub responses : List P
  pub taken_responses : List (SringEntry Q P)

-- A notification wakes an end that sleeps, and is lost on one that does not.
abbrev pub woken : BackPhase → BackPhase
woken awake = awake
woken armed = armed
woken asleep = awake

module _ {Q P : Type 0} where
  abbrev pub put : ℕ → ℕ → SringEntry Q P → Sring Q P → Sring Q P
  put nr_ents idx e s = record s { ring = store (ring_index nr_ents idx) e s.ring }

  abbrev pub read : ℕ → ℕ → Sring Q P → SringEntry Q P
  read nr_ents idx s = s.ring (ring_index nr_ents idx)

  abbrev pub queue_request : Q → Session Q P → Session Q P
  queue_request q x = record x {
    sring = put x.front.nr_ents x.front.req_prod_pvt (req q) x.sring;
    front = record (x.front) { req_prod_pvt = add32 x.front.req_prod_pvt 1 };
    requests = x.requests ++ q ∷ [];
  }

  abbrev pub publish_requests : Session Q P → Session Q P
  publish_requests x = record x {
    sring = ring_push_requests x.sring x.front;
    front_phase = published x.sring.req_prod x.front.req_prod_pvt;
  }

  abbrev pub notify : ℕ → ℕ → Session Q P → Session Q P
  notify old new x = record x {
    front_phase = running;
    back_phase =
        if check_notify old new x.sring.req_event then woken x.back_phase else x.back_phase;
  }

  abbrev pub take_response : Session Q P → Session Q P
  take_response x = record x {
    front = record (x.front) { rsp_cons = add32 x.front.rsp_cons 1 };
    taken_responses = x.taken_responses ++ read x.front.nr_ents x.front.rsp_cons x.sring ∷ [];
  }

  abbrev pub take_request : Session Q P → Session Q P
  take_request x = record x {
    back = record (x.back) { req_cons = add32 x.back.req_cons 1 };
    taken_requests = x.taken_requests ++ read x.back.nr_ents x.back.req_cons x.sring ∷ [];
  }

  abbrev pub queue_response : P → Session Q P → Session Q P
  queue_response p x = record x {
    sring = put x.back.nr_ents x.back.rsp_prod_pvt (rsp p) x.sring;
    back = record (x.back) { rsp_prod_pvt = add32 x.back.rsp_prod_pvt 1 };
    responses = x.responses ++ p ∷ [];
  }

  abbrev pub publish_responses : Session Q P → Session Q P
  publish_responses x = record x { sring = ring_push_responses x.sring x.back }

  abbrev pub arm : Session Q P → Session Q P
  arm x = record x { sring = set_req_event x.sring x.back; back_phase = armed }

  abbrev pub recheck : Session Q P → Session Q P
  recheck x = record x {
    back_phase = if unconsumed_requests x.sring x.back == 0 then asleep else awake;
  }

  pub data Step (x : Session Q P) : Session Q P → Type 0 where
    queueing :
        (q : Q) → x.front_phase ≡ running → ring_full x.front ≡ false → Step x (queue_request q x)
    publishing : x.front_phase ≡ running → Step x (publish_requests x)
    notifying : (old new : ℕ) → x.front_phase ≡ published old new → Step x (notify old new x)
    receiving :
        x.front_phase ≡ running
        → (unconsumed_responses x.sring x.front == 0) ≡ false
        → Step x (take_response x)
    taking :
        x.back_phase ≡ awake
        → (unconsumed_requests x.sring x.back == 0) ≡ false
        → Step x (take_request x)
    answering :
        (p : P)
        → x.back_phase ≡ awake
        → (sub32 x.back.req_cons x.back.rsp_prod_pvt == 0) ≡ false
        → Step x (queue_response p x)
    replying : x.back_phase ≡ awake → Step x (publish_responses x)
    arming : x.back_phase ≡ awake → unconsumed_requests x.sring x.back ≡ 0 → Step x (arm x)
    rechecking : x.back_phase ≡ armed → Step x (recheck x)

  pub data Reach (s : Session Q P) : Session Q P → Type 0 where
    here : Reach s s
    step : {x y : Session Q P} → Reach s x → Step x y → Reach s y
