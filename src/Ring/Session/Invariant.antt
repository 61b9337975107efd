-- ===== src/Ring/Session/Invariant.antt =====
-- What holds in every state that the two ends of a ring reach.
use winservice.Base.{ℕ, ◌+◌, ◌-◌, ◌≤◌, ◌<◌, ◌≡◌, ◌⊎◌}
use winservice.Base.Words.{low32}
use winservice.Ring.Macros.{req, rsp}
use winservice.Ring.Session.{
  FrontPhase, running, published, BackPhase, awake, armed, asleep, Session,
}
use winservice.Ring.Session.Slots.{Queued}

-- The indexes without their wrap-around: of the front end's `rsp_cons`, the shared `rsp_prod`, the
-- back end's `rsp_prod_pvt` and `req_cons`, the shared `req_prod`, and the front end's
-- `req_prod_pvt`.
pub record Counters : Type 0 where
  pub received : ℕ
  pub replied : ℕ
  pub answered : ℕ
  pub taken : ℕ
  pub pushed : ℕ
  pub queued : ℕ

-- They come in this order, within one round of the ring.
pub record Ordered (n : ℕ) (c : Counters) : Type 0 where
  pub received_replied : c.received ≤ c.replied
  pub replied_answered : c.replied ≤ c.answered
  pub answered_taken : c.answered ≤ c.taken
  pub taken_pushed : c.taken ≤ c.pushed
  pub pushed_queued : c.pushed ≤ c.queued
  pub queued_received : c.queued ≤ c.received + n

-- The back end's event is set to the next request; where it sleeps, the requests that are published
-- and not taken, if there are any, are those that the front end is about to notify it of: those from
-- `old` on.
abbrev pub BackWaits : (old pushed taken event : ℕ) → BackPhase → Type 0
BackWaits old pushed taken event awake = Unit
BackWaits old pushed taken event armed = event ≡ low32 (taken + 1)
BackWaits old pushed taken event asleep =
    (event ≡ low32 (taken + 1)) × ((pushed ≡ taken) ⊎ (old ≤ taken))

-- A front end that runs is about to notify of none.
abbrev pub Waits : (pushed taken event : ℕ) → BackPhase → FrontPhase → Type 0
Waits pushed taken event phase running = BackWaits (taken + 1) pushed taken event phase
Waits pushed taken event phase (published old new) =
    (o : ℕ) × (old ≡ low32 o)
    × (new ≡ low32 pushed)
    × (o ≤ pushed)
    × (pushed - o < 4294967296)
    × BackWaits o pushed taken event phase

module _ {Q P : Type 0} where
  -- The session's indexes are the counters.
  pub record Counts (n : ℕ) (c : Counters) (x : Session Q P) : Type 0 where
    pub rsp_cons : x.front.rsp_cons ≡ low32 c.received
    pub rsp_prod : x.sring.rsp_prod ≡ low32 c.replied
    pub rsp_prod_pvt : x.back.rsp_prod_pvt ≡ low32 c.answered
    pub req_cons : x.back.req_cons ≡ low32 c.taken
    pub req_prod : x.sring.req_prod ≡ low32 c.pushed
    pub req_prod_pvt : x.front.req_prod_pvt ≡ low32 c.queued
    pub front_ents : x.front.nr_ents ≡ n
    pub back_ents : x.back.nr_ents ≡ n

  -- The requests and the responses that are queued and not yet read lie in their slots, and come
  -- behind those that have been read.
  pub record Inv (n : ℕ) (x : Session Q P) : Type 0 where
    pub counters : Counters
    pub ordered : Ordered n counters
    pub counts : Counts n counters x
    pub requests :
        Queued n req x.sring.ring counters.taken counters.queued x.taken_requests x.requests
    pub responses :
        Queued n rsp x.sring.ring counters.received counters.answered x.taken_responses x.responses
    pub waits : Waits counters.pushed counters.taken x.sring.req_event x.back_phase x.front_phase
