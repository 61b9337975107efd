-- ===== src/Ring/Macros.antt =====
-- The macros of inc/ring.h. The two private halves point at one shared ring, which stands beside
-- them here. `wmb` and `mb` order the accesses of a processor: a step of Ring/Session makes one
-- access to the shared ring.
use winservice.Base.{ℕ, ◌==◌, Bool, List, replicate, bit_and, ltb, leb, if◌then◌else◌}
use winservice.Base.Words.{add32, sub32}
use winservice.Ring.Size.{ring_size}

-- `union __name##_sring_entry`, with the member that was written last.
pub data SringEntry (Q P : Type 0) : Type 0 where
  untouched : SringEntry Q P
  req : Q → SringEntry Q P
  rsp : P → SringEntry Q P

pub record Sring (Q P : Type 0) : Type 0 where
  pub req_prod : ℕ
  pub req_event : ℕ
  pub rsp_prod : ℕ
  pub rsp_event : ℕ
  pub pad : List ℕ
  pub ring : ℕ → SringEntry Q P

pub record FrontRing : Type 0 where
  pub req_prod_pvt : ℕ
  pub rsp_cons : ℕ
  pub nr_ents : ℕ

pub record BackRing : Type 0 where
  pub rsp_prod_pvt : ℕ
  pub req_cons : ℕ
  pub nr_ents : ℕ

-- An entry is written through the pointer that `RING_GET_REQUEST` or `RING_GET_RESPONSE` gives.
abbrev pub store {ℓ} : {A : Type ℓ} → ℕ → A → (ℕ → A) → ℕ → A
store i a f j = if j == i then a else f j

-- The position in `ring` of `RING_GET_REQUEST` and `RING_GET_RESPONSE`.
unfoldable pub ring_index : ℕ → ℕ → ℕ
ring_index nr_ents idx = bit_and idx (sub32 nr_ents 1)

unfoldable pub ring_free_requests : FrontRing → ℕ
ring_free_requests r = sub32 r.nr_ents (sub32 r.req_prod_pvt r.rsp_cons)

unfoldable pub ring_full : FrontRing → Bool
unfolding ring_free_requests
ring_full r = ring_free_requests r == 0

unfoldable pub ring_request_cons_overflow : BackRing → ℕ → Bool
ring_request_cons_overflow r cons = leb r.nr_ents (sub32 cons r.rsp_prod_pvt)

-- Whether a move of a producer index from `old` to `new` crosses the event.
unfoldable pub check_notify : ℕ → ℕ → ℕ → Bool
check_notify old new event = ltb (sub32 new event) (sub32 new old)

unfoldable pub front_ring_init : ℕ → ℕ → FrontRing
unfolding ring_size
front_ring_init size entry = record {
  req_prod_pvt = 0;
  rsp_cons = 0;
  nr_ents = ring_size size entry;
}

unfoldable pub back_ring_init : ℕ → ℕ → BackRing
unfolding ring_size
back_ring_init size entry = record {
  rsp_prod_pvt = 0;
  req_cons = 0;
  nr_ents = ring_size size entry;
}

module _ {Q P : Type 0} where
  unfoldable pub shared_ring_init : Sring Q P → Sring Q P
  shared_ring_init s = record s {
    req_prod = 0;
    rsp_prod = 0;
    req_event = 1;
    rsp_event = 1;
    pad = replicate 48 0;
  }

  unfoldable pub front_ring_attach : Sring Q P → ℕ → ℕ → FrontRing
  unfolding ring_size
  front_ring_attach s size entry = record {
    req_prod_pvt = s.req_prod;
    rsp_cons = s.rsp_prod;
    nr_ents = ring_size size entry;
  }

  unfoldable pub back_ring_attach : Sring Q P → ℕ → ℕ → BackRing
  unfolding ring_size
  back_ring_attach s size entry = record {
    rsp_prod_pvt = s.rsp_prod;
    req_cons = s.req_prod;
    nr_ents = ring_size size entry;
  }

  unfoldable pub unconsumed_responses : Sring Q P → FrontRing → ℕ
  unconsumed_responses s r = sub32 s.rsp_prod r.rsp_cons

  unfoldable pub unconsumed_requests : Sring Q P → BackRing → ℕ
  unconsumed_requests s r =
      let requests = sub32 s.req_prod r.req_cons in
      let responses = sub32 r.nr_ents (sub32 r.req_cons r.rsp_prod_pvt) in
      if ltb requests responses then requests else responses

  unfoldable pub ring_push_requests : Sring Q P → FrontRing → Sring Q P
  ring_push_requests s r = record s { req_prod = r.req_prod_pvt }

  unfoldable pub ring_push_responses : Sring Q P → BackRing → Sring Q P
  ring_push_responses s r = record s { rsp_prod = r.rsp_prod_pvt }

  -- With no access of the other end between the two accesses of the macro.
  unfoldable pub push_requests_and_check_notify : Sring Q P → FrontRing → Sring Q P × Bool
  unfolding check_notify ring_push_requests
  push_requests_and_check_notify s r =
      (ring_push_requests s r, check_notify s.req_prod r.req_prod_pvt s.req_event)

  unfoldable pub push_responses_and_check_notify : Sring Q P → BackRing → Sring Q P × Bool
  unfolding check_notify ring_push_responses
  push_responses_and_check_notify s r =
      (ring_push_responses s r, check_notify s.rsp_prod r.rsp_prod_pvt s.rsp_event)

  -- `req_event = req_cons + 1`
  unfoldable pub set_req_event : Sring Q P → BackRing → Sring Q P
  set_req_event s r = record s { req_event = add32 r.req_cons 1 }

  unfoldable pub set_rsp_event : Sring Q P → FrontRing → Sring Q P
  set_rsp_event s r = record s { rsp_event = add32 r.rsp_cons 1 }

  unfoldable pub final_check_for_requests : Sring Q P → BackRing → Sring Q P × ℕ
  unfolding unconsumed_requests set_req_event
  final_check_for_requests s r =
      let work = unconsumed_requests s r in
      if work == 0
      then (set_req_event s r, unconsumed_requests (set_req_event s r) r)
      else (s, work)

  unfoldable pub final_check_for_responses : Sring Q P → FrontRing → Sring Q P × ℕ
  unfolding unconsumed_responses set_rsp_event
  final_check_for_responses s r =
      let work = unconsumed_responses s r in
      if work == 0
      then (set_rsp_event s r, unconsumed_responses (set_rsp_event s r) r)
      else (s, work)
