-- ===== src/Ring/Session/Delivery.antt =====
-- What each end of a ring reads of what the other queues, and that no request is left waiting.
use winservice.Base.{
  ℕ, ◌-◌, ◌/◌, ◌≤◌, ◌<◌, ◌≡◌, refl, ◌⊎◌, inl, inr, true, Bool-cases, List, [], ◌++◌, map, length,
  ltb, arith,
}
use mathlib.Core.Path.{subst}
use winservice.Ring.Size.{ring_offset, ring_size}
use winservice.Ring.Size.Floor.{rd32-IsFloor}
use winservice.Ring.Macros.{
  SringEntry, req, rsp, Sring, shared_ring_init, front_ring_init, back_ring_init, check_notify,
  unconsumed_requests,
}
use winservice.Ring.Session.{
  FrontPhase, running, published, awake, asleep, Session, Step, Reach, here, step, queueing,
  publishing, notifying, receiving, taking, answering, replying, arming, rechecking,
}
use winservice.Base.PowerOfTwo.{IsSize}
use winservice.Ring.Session.Invariant.{Waits, Inv}
use winservice.Ring.Session.Indexes.{unconsumed_requests-eq}
use winservice.Ring.Session.Wake.{check_notify-crossed}
use winservice.Ring.Session.Moves.{
  queue_request-Inv, publish_requests-Inv, notify-Inv, take_response-Inv,
}
use winservice.Ring.Session.BackMoves.{
  take_request-Inv, queue_response-Inv, publish_responses-Inv, arm-Inv, recheck-Inv,
}

module _ {Q P : Type 0} where
  -- Both ends initialised on a shared page of so many bytes, with entries of so many bytes.
  abbrev pub fresh_session : ℕ → ℕ → Sring Q P → Session Q P
  fresh_session size entry page = record {
    sring = shared_ring_init page;
    front = front_ring_init size entry;
    back = back_ring_init size entry;
    front_phase = running;
    back_phase = awake;
    requests = [];
    taken_requests = [];
    responses = [];
    taken_responses = [];
  }

-- The page has room for an entry, and fewer than 2 ^ 32 of them.
pub record HasRoom (size entry : ℕ) : Type 0 where
  pub some_entry : 0 < (size - ring_offset) / entry
  pub few : (size - ring_offset) / entry < 4294967296

ring_size-IsSize : (size entry : ℕ) → HasRoom size entry → IsSize (ring_size size entry)
unfolding ring_size
ring_size-IsSize size entry room =
    let floor = rd32-IsFloor ((size - ring_offset) / entry) room.some_entry room.few in
    record { log = floor.log; power = floor.power; small = omega (arith, floor.small) }

asleep-Waits :
    (front : FrontPhase) (pushed taken event : ℕ)
    → taken ≤ pushed
    → Waits pushed taken event asleep front
    → (pushed ≡ taken)
      ⊎ ((old : ℕ) × (new : ℕ) × (front ≡ published old new) × (check_notify old new event ≡ true))
asleep-Waits running pushed taken event behind (set, inl none_left) = inl none_left
asleep-Waits running pushed taken event behind (set, inr over) = absurd (omega (arith, over))
asleep-Waits (published old new) pushed taken event behind
      (o, a, b, le, near, (set, inl none_left)) =
    inl none_left
asleep-Waits (published old new) pushed taken event behind (o, a, b, le, near, (set, inr older)) =
    elim (Bool-cases (ltb taken pushed)) [
      | inl more ↦ inr (
        old,
        new,
        refl,
        rw (a, b, set) (check_notify-crossed o pushed taken older (ground (arith, more)) near),
      )
      | inr none_more ↦ inl (ground (arith, none_more))
    ]

module _ {Q P : Type 0} where
  fresh_session-Inv :
      (size entry : ℕ) (page : Sring Q P)
      → Inv (ring_size size entry) (fresh_session size entry page)
  unfolding shared_ring_init front_ring_init back_ring_init
  fresh_session-Inv size entry page = record {
    counters = record {
      received = 0;
      replied = 0;
      answered = 0;
      taken = 0;
      pushed = 0;
      queued = 0;
    };
    ordered = omega arith;
    counts = record {
      rsp_cons = refl;
      rsp_prod = refl;
      rsp_prod_pvt = refl;
      req_cons = refl;
      req_prod = refl;
      req_prod_pvt = refl;
      front_ents = refl;
      back_ents = refl;
    };
    requests = record { items = []; count = refl; slots = tt; order = refl };
    responses = record { items = []; count = refl; slots = tt; order = refl };
    waits = tt;
  }

  Step-Inv : {n : ℕ} {x y : Session Q P} → IsSize n → Step x y → Inv n x → Inv n y
  Step-Inv {x = x} size (queueing q runs room) inv = queue_request-Inv size q x room inv
  Step-Inv {x = x} size (publishing runs) inv = publish_requests-Inv size x runs inv
  Step-Inv {x = x} size (notifying old new sent) inv = notify-Inv size old new x sent inv
  Step-Inv {x = x} size (receiving runs some_left) inv = take_response-Inv size x some_left inv
  Step-Inv {x = x} size (taking up some_left) inv = take_request-Inv size x up some_left inv
  Step-Inv {x = x} size (answering p up unanswered) inv = queue_response-Inv size p x unanswered inv
  Step-Inv {x = x} size (replying up) inv = publish_responses-Inv size x inv
  Step-Inv {x = x} size (arming up none_left) inv = arm-Inv size x inv
  Step-Inv {x = x} size (rechecking set) inv = recheck-Inv size x set inv

  pub Reach-Inv :
      (page : Sring Q P) {size entry : ℕ} {x : Session Q P}
      → HasRoom size entry
      → Reach (fresh_session size entry page) x
      → Inv (ring_size size entry) x
  Reach-Inv page {size} {entry} room here = fresh_session-Inv size entry page
  Reach-Inv page {size} {entry} room (step r move) =
      Step-Inv (ring_size-IsSize size entry room) move (Reach-Inv page room r)

  -- What one end has read, `waiting` of which is in the ring still, is what the other has queued.
  pub record InOrder {A : Type 0} (n : ℕ) (wrap : A → SringEntry Q P)
      (taken : List (SringEntry Q P)) (all : List A) : Type 0 where
    pub waiting : List A
    pub same : taken ++ map wrap waiting ≡ map wrap all
    pub few : length waiting ≤ n

  -- Whatever the two ends of an initialised ring do, in any order: the requests that the back end has
  -- read are those that the front end has queued, from the first on and in order, none changed,
  -- lost or read twice; so are the responses that the front end has read. No more of either than
  -- the ring has entries are queued and not read.
  pub Reach-InOrder :
      (page : Sring Q P) {size entry : ℕ} {x : Session Q P}
      → HasRoom size entry
      → Reach (fresh_session size entry page) x
      → InOrder (ring_size size entry) req x.taken_requests x.requests
        × InOrder (ring_size size entry) rsp x.taken_responses x.responses
  Reach-InOrder page room r =
      let inv = Reach-Inv page room r in
      let o = inv.ordered in
      (
        record {
          waiting = (inv.requests).items;
          same = (inv.requests).order;
          few = omega (arith, o, (inv.requests).count);
        },
        record {
          waiting = (inv.responses).items;
          same = (inv.responses).order;
          few = omega (arith, o, (inv.responses).count);
        },
      )

  -- The front end is between its publication and its check, and the check will notify.
  abbrev pub WillNotify : Session Q P → Type 0
  WillNotify x =
      (old : ℕ) × (new : ℕ) × (x.front_phase ≡ published old new)
      × (check_notify old new x.sring.req_event ≡ true)

  -- No wake-up is lost: where the back end sleeps, either no published request waits, or the front
  -- end has published requests, has not made its check yet, and will notify when it makes it.
  pub Reach-notified :
      (page : Sring Q P) {size entry : ℕ} {x : Session Q P}
      → HasRoom size entry
      → Reach (fresh_session size entry page) x
      → x.back_phase ≡ asleep
      → (unconsumed_requests x.sring x.back ≡ 0) ⊎ WillNotify x
  Reach-notified page {size} {entry} {x} room r sleeps =
      let inv = Reach-Inv page room r in
      let c = inv.counters in
      let left =
        unconsumed_requests-eq (ring_size-IsSize size entry room) c x inv.ordered inv.counts in
      let waits =
        subst (λ b. Waits c.pushed c.taken x.sring.req_event b x.front_phase) sleeps inv.waits in
      elim (asleep-Waits x.front_phase c.pushed c.taken x.sring.req_event (inv.ordered).taken_pushed
        waits) [ inl none_left ↦ inl (omega (arith, left, none_left)) | inr will ↦ inr will ]
