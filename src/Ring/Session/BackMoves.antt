-- ===== src/Ring/Session/BackMoves.antt =====
-- The steps of the back end keep the invariant.
use winservice.Base.{ℕ, ◌+◌, ◌%◌, ◌<◌, ◌==◌, ◌≡◌, false, arith}
use winservice.Base.Words.{sub32, add32, low32}
use winservice.Ring.Macros.{
  req, rsp, ring_index, unconsumed_requests, ring_push_responses, set_req_event,
}
use winservice.Ring.Session.{
  awake, armed, Session, take_request, queue_response, publish_responses, arm, recheck,
}
use winservice.Base.PowerOfTwo.{IsSize}
use winservice.Ring.Session.Slots.{
  ring_index-low32, append-Queued, take-Queued, write_behind-Queued,
}
use winservice.Ring.Session.Indexes.{unconsumed_requests-eq, unanswered-eq}
use winservice.Ring.Session.Wake.{awake-Waits, arm-Waits, recheck-Waits}
use winservice.Ring.Session.Invariant.{Inv}

module _ {Q P : Type 0} {n : ℕ} (size : IsSize n) where
  pub take_request-Inv :
      (x : Session Q P)
      → x.back_phase ≡ awake
      → (unconsumed_requests x.sring x.back == 0) ≡ false
      → Inv n x
      → Inv n (take_request x)
  take_request-Inv x up some_left inv =
      let c = inv.counters in
      let o = inv.ordered in
      let e = inv.counts in
      let left = unconsumed_requests-eq size c x o e in
      let less : c.taken < c.pushed = ground (arith, some_left, left) in
      let slot : ring_index x.back.nr_ents x.back.req_cons ≡ c.taken % n =
        rw (e.back_ents, e.req_cons) (ring_index-low32 size c.taken) in
      record {
        counters = record c { taken = c.taken + 1 };
        ordered = omega (arith, o, less);
        counts = ground (arith, e);
        requests =
            take-Queued req (ring_index x.back.nr_ents x.back.req_cons) slot
              (omega (arith, o, less)) inv.requests;
        responses = inv.responses;
        waits =
            awake-Waits x.front_phase c.pushed c.taken (c.taken + 1) x.sring.req_event
              x.sring.req_event x.back_phase up inv.waits;
      }

  pub queue_response-Inv :
      (p : P) (x : Session Q P)
      → (sub32 x.back.req_cons x.back.rsp_prod_pvt == 0) ≡ false
      → Inv n x
      → Inv n (queue_response p x)
  queue_response-Inv p x unanswered inv =
      let c = inv.counters in
      let o = inv.ordered in
      let e = inv.counts in
      let left = unanswered-eq size c x o e in
      let less : c.answered < c.taken = ground (arith, unanswered, left) in
      let slot : ring_index x.back.nr_ents x.back.rsp_prod_pvt ≡ c.answered % n =
        rw (e.back_ents, e.rsp_prod_pvt) (ring_index-low32 size c.answered) in
      record {
        counters = record c { answered = c.answered + 1 };
        ordered = omega (arith, o, less);
        counts = ground (arith, e);
        requests =
            rw slot (
              write_behind-Queued req size (rsp p) c.answered less (omega (arith, o)) inv.requests);
        responses = rw slot (append-Queued rsp size p (omega (arith, o, less)) inv.responses);
        waits = inv.waits;
      }

  pub publish_responses-Inv : (x : Session Q P) → Inv n x → Inv n (publish_responses x)
  unfolding ring_push_responses
  publish_responses-Inv x inv =
      let c = inv.counters in
      let o = inv.ordered in
      let e = inv.counts in
      record {
        counters = record c { replied = c.answered };
        ordered = omega (arith, o);
        counts = ground (arith, e);
        requests = inv.requests;
        responses = inv.responses;
        waits = inv.waits;
      }

  pub arm-Inv : (x : Session Q P) → Inv n x → Inv n (arm x)
  unfolding set_req_event
  arm-Inv x inv =
      let c = inv.counters in
      let e = inv.counts in
      let event : add32 x.back.req_cons 1 ≡ low32 (c.taken + 1) = rw (e.req_cons) (omega arith) in
      record {
        counters = c;
        ordered = inv.ordered;
        counts = ground (arith, e);
        requests = inv.requests;
        responses = inv.responses;
        waits =
            rw event
              (arm-Waits x.front_phase c.pushed c.taken x.sring.req_event x.back_phase inv.waits);
      }

  pub recheck-Inv : (x : Session Q P) → x.back_phase ≡ armed → Inv n x → Inv n (recheck x)
  recheck-Inv x set inv =
      let c = inv.counters in
      let o = inv.ordered in
      let left = unconsumed_requests-eq size c x o inv.counts in
      record {
        counters = c;
        ordered = o;
        counts = ground (arith, inv.counts);
        requests = inv.requests;
        responses = inv.responses;
        waits = rw left (
            recheck-Waits x.front_phase c.pushed c.taken x.sring.req_event x.back_phase set
              o.taken_pushed inv.waits);
      }
