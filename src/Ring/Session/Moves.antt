-- ===== src/Ring/Session/Moves.antt =====
-- The steps of the front end keep the invariant.
use mathlib.Core.Path.{subst}
use winservice.Base.{ℕ, ◌+◌, ◌%◌, ◌<◌, ◌==◌, ◌≡◌, false, arith}
use winservice.Ring.Macros.{
  req, rsp, ring_index, ring_full, unconsumed_responses, ring_push_requests,
}
use winservice.Ring.Session.{
  running, published, Session, queue_request, publish_requests, notify, take_response,
}
use winservice.Base.PowerOfTwo.{IsSize, size-le}
use winservice.Ring.Session.Slots.{ring_index-low32, append-Queued, take-Queued, write_ahead-Queued}
use winservice.Ring.Session.Indexes.{unconsumed_responses-eq, ring_full-room}
use winservice.Ring.Session.Wake.{publish-BackWaits, notify-BackWaits}
use winservice.Ring.Session.Invariant.{Waits, Inv}

module _ {Q P : Type 0} {n : ℕ} (size : IsSize n) where
  pub queue_request-Inv :
      (q : Q) (x : Session Q P) → ring_full x.front ≡ false → Inv n x → Inv n (queue_request q x)
  queue_request-Inv q x room inv =
      let c = inv.counters in
      let o = inv.ordered in
      let e = inv.counts in
      let less = ring_full-room size c x o e room in
      let slot : ring_index x.front.nr_ents x.front.req_prod_pvt ≡ c.queued % n =
        rw (e.front_ents, e.req_prod_pvt) (ring_index-low32 size c.queued) in
      record {
        counters = record c { queued = c.queued + 1 };
        ordered = omega (arith, o, less);
        counts = ground (arith, e);
        requests = rw slot (append-Queued req size q (omega (arith, o, less)) inv.requests);
        responses =
            rw slot
              (write_ahead-Queued rsp size (req q) c.queued (omega (arith, o)) less inv.responses);
        waits = inv.waits;
      }

  pub publish_requests-Inv :
      (x : Session Q P) → x.front_phase ≡ running → Inv n x → Inv n (publish_requests x)
  unfolding ring_push_requests
  publish_requests-Inv x runs inv =
      let c = inv.counters in
      let o = inv.ordered in
      let e = inv.counts in
      let le = size-le size in
      let waits = subst (Waits c.pushed c.taken x.sring.req_event x.back_phase) runs inv.waits in
      record {
        counters = record c { pushed = c.queued };
        ordered = omega (arith, o);
        counts = ground (arith, e);
        requests = inv.requests;
        responses = inv.responses;
        waits = (
          c.pushed,
          e.req_prod,
          e.req_prod_pvt,
          o.pushed_queued,
          omega (arith, o, le),
          publish-BackWaits x.back_phase c.pushed c.queued c.taken x.sring.req_event waits,
        );
      }

  pub notify-Inv :
      (old new : ℕ) (x : Session Q P)
      → x.front_phase ≡ published old new
      → Inv n x
      → Inv n (notify old new x)
  notify-Inv old new x sent inv =
      let c = inv.counters in
      let (o, is_old, is_new, le, near, w) =
        subst (Waits c.pushed c.taken x.sring.req_event x.back_phase) sent inv.waits in
      record {
        counters = c;
        ordered = inv.ordered;
        counts = ground (arith, inv.counts);
        requests = inv.requests;
        responses = inv.responses;
        waits =
            rw (is_old, is_new)
              (notify-BackWaits x.back_phase o c.pushed c.taken x.sring.req_event
                (inv.ordered).taken_pushed near w);
      }

  pub take_response-Inv :
      (x : Session Q P)
      → (unconsumed_responses x.sring x.front == 0) ≡ false
      → Inv n x
      → Inv n (take_response x)
  take_response-Inv x some_left inv =
      let c = inv.counters in
      let o = inv.ordered in
      let e = inv.counts in
      let left = unconsumed_responses-eq size c x o e in
      let less : c.received < c.replied = ground (arith, some_left, left) in
      let slot : ring_index x.front.nr_ents x.front.rsp_cons ≡ c.received % n =
        rw (e.front_ents, e.rsp_cons) (ring_index-low32 size c.received) in
      record {
        counters = record c { received = c.received + 1 };
        ordered = omega (arith, o, less);
        counts = ground (arith, e);
        requests = inv.requests;
        responses =
            take-Queued rsp (ring_index x.front.nr_ents x.front.rsp_cons) slot
              (omega (arith, o, less)) inv.responses;
        waits = inv.waits;
      }
