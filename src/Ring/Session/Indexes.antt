-- ===== src/Ring/Session/Indexes.antt =====
-- What the tests of the two ends of a ring compute, in counters that do not wrap around.
use winservice.Base.{ℕ, ◌+◌, ◌-◌, ◌<◌, ◌≡◌, false, arith}
use winservice.Base.Words.{sub32, sub32-low32}
use winservice.Ring.Macros.{
  ring_full, ring_free_requests, unconsumed_requests, unconsumed_responses,
}
use winservice.Ring.Session.{Session}
use winservice.Base.PowerOfTwo.{IsSize, size-le}
use winservice.Ring.Session.Invariant.{Counters, Ordered, Counts}

module _ {Q P : Type 0} {n : ℕ} (size : IsSize n) where
  pub unconsumed_requests-eq :
      (c : Counters) (x : Session Q P)
      → Ordered n c
      → Counts n c x
      → unconsumed_requests x.sring x.back ≡ c.pushed - c.taken
  unfolding unconsumed_requests
  unconsumed_requests-eq c x o e =
      let le = size-le size in
      let new : sub32 x.sring.req_prod x.back.req_cons ≡ c.pushed - c.taken =
        rw (e.req_prod, e.req_cons) (sub32-low32 c.pushed c.taken o.taken_pushed (omega arith)) in
      let busy : sub32 x.back.req_cons x.back.rsp_prod_pvt ≡ c.taken - c.answered =
        rw (e.req_cons, e.rsp_prod_pvt)
          (sub32-low32 c.taken c.answered o.answered_taken (omega arith)) in
      rw (new, busy, e.back_ents) (ground (arith, le))

  pub unconsumed_responses-eq :
      (c : Counters) (x : Session Q P)
      → Ordered n c
      → Counts n c x
      → unconsumed_responses x.sring x.front ≡ c.replied - c.received
  unfolding unconsumed_responses
  unconsumed_responses-eq c x o e =
      let le = size-le size in
      rw (e.rsp_prod, e.rsp_cons)
        (sub32-low32 c.replied c.received o.received_replied (omega arith))

  pub ring_full-room :
      (c : Counters) (x : Session Q P)
      → Ordered n c
      → Counts n c x
      → ring_full x.front ≡ false
      → c.queued < c.received + n
  unfolding ring_full ring_free_requests
  ring_full-room c x o e room =
      let le = size-le size in
      let used : sub32 x.front.req_prod_pvt x.front.rsp_cons ≡ c.queued - c.received =
        rw (e.req_prod_pvt, e.rsp_cons)
          (sub32-low32 c.queued c.received (omega arith) (omega arith)) in
      let free : ring_free_requests x.front ≡ n - (c.queued - c.received) =
        rw (used, e.front_ents) (omega (arith, le)) in
      ground (arith, room, free)

  pub unanswered-eq :
      (c : Counters) (x : Session Q P)
      → Ordered n c
      → Counts n c x
      → sub32 x.back.req_cons x.back.rsp_prod_pvt ≡ c.taken - c.answered
  unanswered-eq c x o e =
      let le = size-le size in
      rw (e.req_cons, e.rsp_prod_pvt)
        (sub32-low32 c.taken c.answered o.answered_taken (omega arith))
