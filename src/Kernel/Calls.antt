-- ===== src/Kernel/Calls.antt =====
-- The calls on an opened channel, and a sequence of them.
use winservice.Base.{
  ℕ, ◌≤◌, ◌<◌, ◌≡◌, ◌⊎◌, refl, inl, inr, Bool, true, false, Bool-cases, Option, some, pure, ◌>>=◌,
  ◌>>◌, Run, and_then, Outcome, Outcome-bind, Outcome-mono, if◌then◌else◌, arith,
}
use winservice.Channel.Env.{bind, connect, wait, disconnect}
use winservice.Channel.Api.{no_stream}
use winservice.Kernel.Env.{
  status_success, status_unsuccessful, nt_success, v4v_connected, v4v_disconnected, v4v_error,
  V4vStatusType, XenV4v, Asked, control, KernelEnv, Kernel, KernelCmd, updating, closing,
}
use winservice.Kernel.Requests.{
  with_state, xen_v4v_create_kevent, xen_v4v_build_ioctl, xen_v4v_irp_stack, await, close_some,
  hand_over, request_or, request,
}
use winservice.Kernel.Api.{
  xen_v4v_connect_wait, xen_v4v_connect, xen_v4v_disconnect, transfer, bound_ring, xen_v4v_bind,
}
use winservice.Kernel.Stands.{
  one, both, Stands, Stands-state, Stands-floor, Refused, HasEvent, kevent-HasEvent, closing-Stands,
  close_some-Stands,
}
use winservice.Kernel.Packets.{build-Stands, irp_stack-Stands, await-Stands}

module _ {W : Type 0} (env : KernelEnv W)
    (closes : (h : ℕ) (w : W) → nt_success (env.close (some h) w).0 ≡ true) (s : Kernel W)
    (v : XenV4v) (refs : ℕ → ℕ) (d : ℕ) (has_device : v.dev_object ≡ some d) where
  abbrev pub Kept : {A : Type 0} → ℕ → (more : ℕ → ℕ) → Run (Kernel W) A → Type 0
  Kept floor more run = Outcome (λ _. Stands s floor v more refs) (Refused s) run

  pub Kept-bind :
      {A B : Type 0} (floor lower : ℕ) (more fewer : ℕ → ℕ) (run : Run (Kernel W) A)
      (f : A → KernelCmd W B)
      → Kept floor more run
      → ((a : A) (u : Kernel W) → Stands s floor v more refs u → Kept lower fewer (f a u))
      → Kept lower fewer (and_then run f)
  Kept-bind floor lower more fewer run f kept each =
      Outcome-bind (λ _. Stands s floor v more refs) (Refused s) (λ _. Stands s lower v fewer refs)
        run f kept each

  -- A call with an event of its own.
  pub for_event :
      {A : Type 0} (floor : ℕ) (more : ℕ → ℕ) (body : Option ℕ × Option ℕ → KernelCmd W A)
      (u : Kernel W)
      → s.refused ≤ floor
      → Stands s floor v more refs u
      → ((event h : Option ℕ) (f : ℕ) (w : Kernel W)
          → floor ≤ f
          → Stands s f v (both more (one h)) refs w
          → s.refused < f ⊎ ((e : ℕ) × (event ≡ some e))
          → Kept f more (body (event, h) w))
      → Kept floor more ((xen_v4v_create_kevent env >>= body) u)
  for_event floor more body u low h each =
      Outcome-bind (HasEvent s floor v more refs) (Refused s) (λ _. Stands s floor v more refs)
        (xen_v4v_create_kevent env u) body (kevent-HasEvent env closes s floor low v more refs u h)
        λ (r : Option ℕ × Option ℕ) w (f, le, st, made).
          Outcome-mono (λ _. Stands s f v more refs) (λ _. Stands s floor v more refs) (Refused s)
            (body r w) (each r.0 r.1 f w le st made) λ _ x top. Stands-floor f le top

  -- The end of such a call.
  pub end-Kept :
      (floor : ℕ) (more : ℕ → ℕ) (h : Option ℕ) (status : ℕ) (u : Kernel W)
      → s.refused ≤ floor
      → Stands s floor v (both more (one h)) refs u
      → Kept floor more ((closing (env.close) h >> pure status) u)
  end-Kept floor more h status u low st =
      Kept-bind floor floor more more (closing (env.close) h u) (λ _. pure status)
        (closing-Stands env closes s floor low v more refs h u st) λ _ w left. left

  pub state-Kept :
      {A : Type 0} (floor : ℕ) (more fewer : ℕ → ℕ) (state : V4vStatusType) (rest : KernelCmd W A)
      (u : Kernel W)
      → Stands s floor v more refs u
      → ((w : Kernel W) → Stands s floor v more refs w → Kept floor fewer (rest w))
      → Kept floor fewer ((updating (with_state state) >> rest) u)
  state-Kept floor more fewer state rest u h each =
      each (record u { v4v = with_state state u.v4v })
        (Stands-state h (omega arith) (λ a. omega arith) (λ a. omega arith) refl refl refl)

  request-Kept :
      (floor : ℕ) (more : ℕ → ℕ) (asked : Asked) (event : Option ℕ) (u : Kernel W)
      → s.refused ≤ floor
      → Stands s floor v more refs u
      → Kept floor more (request env asked event u)
  unfolding request
  request-Kept floor more asked event u low h =
      Outcome-bind (λ built w. Stands s floor v more refs w × (Refused s w ⊎ (built ≡ true)))
        (Refused s) (λ _. Stands s floor v more refs) (xen_v4v_build_ioctl env asked event u) _
        (build-Stands env closes s floor low v more refs d asked event u has_device h)
        λ (built : Bool) w (st, made). elim (Bool-cases built) [
          | inl e ↦
              rw e
                (irp_stack-Stands env closes s floor low v more refs d asked event w has_device st)
          | inr e ↦ rw e (ground (arith, made, e))
        ]

  -- A call that is made, and waited for.
  done-Kept :
      (floor : ℕ) (more : ℕ → ℕ) (event : Option ℕ) (call : KernelCmd W ℕ) (u : Kernel W)
      → s.refused < floor ⊎ ((e : ℕ) × (event ≡ some e))
      → s.refused ≤ floor
      → Kept floor more (call u)
      → Kept floor more ((call >>= await env event) u)
  done-Kept floor more event call u made low kept =
      Kept-bind floor floor more more (call u) (await env event) kept
        λ called w st. await-Stands env closes s floor low v more refs event called w st made

  -- A request with a wait, behind which the state is another.
  moved-Kept :
      (floor : ℕ) (more : ℕ → ℕ) (asked : Asked) (state : ℕ → V4vStatusType) (u : Kernel W)
      → s.refused ≤ floor
      → Stands s floor v more refs u
      → Kept floor more (
          (do
            r ← xen_v4v_create_kevent env
            called ← request env asked r.0
            status ← await env r.0 called
            updating (with_state (state status))
            closing (env.close) r.1
            pure status)
            u)
  moved-Kept floor more asked state u low h =
      for_event floor more _ u low h λ event hd f w le st made.
        let held = both more (one hd) in
        let top : s.refused ≤ f = omega (arith, le, low) in
        let end_call = λ (status : ℕ). closing (env.close) hd >> pure status in
        Kept-bind f f held more (request env asked event w) _
          (request-Kept f held asked event w top st)
          λ called x left.
            Kept-bind f f held more (await env event called x) _
              (await-Stands env closes s f top v held refs event called x left made)
              λ status y l.
                state-Kept f held more (state status) (end_call status) y l
                  λ z k. end-Kept f more hd status z top k

  pub connect-Kept :
      (floor : ℕ) (more : ℕ → ℕ) (to_domain port : ℕ) (u : Kernel W)
      → s.refused ≤ floor
      → Stands s floor v more refs u
      → Kept floor more (xen_v4v_connect env to_domain port u)
  unfolding xen_v4v_connect
  connect-Kept floor more to_domain port u low h =
      moved-Kept floor more
        (control (connect no_stream (record { port = port; domain = to_domain })))
        (λ _. v4v_connected) u low h

  pub disconnect-Kept :
      (floor : ℕ) (more : ℕ → ℕ) (u : Kernel W)
      → s.refused ≤ floor
      → Stands s floor v more refs u
      → Kept floor more (xen_v4v_disconnect env u)
  unfolding xen_v4v_disconnect
  disconnect-Kept floor more u low h =
      moved-Kept floor more (control disconnect)
        (λ status. if nt_success status then v4v_disconnected else v4v_error) u low h

  pub connect_wait-Kept :
      (floor : ℕ) (more : ℕ → ℕ) (u : Kernel W)
      → s.refused ≤ floor
      → Stands s floor v more refs u
      → Kept floor more (xen_v4v_connect_wait env u)
  unfolding xen_v4v_connect_wait
  connect_wait-Kept floor more u low h = for_event floor more _ u low h λ event hd f w le st made.
      let top : s.refused ≤ f = omega (arith, le, low) in
      Kept-bind f f (both more (one hd)) more (request env (control (wait no_stream)) event w) _
        (request-Kept f (both more (one hd)) (control (wait no_stream)) event w top st)
        λ status x left. end-Kept f more hd status x top left

  -- The middle of a transfer.
  abbrev sent_or : Bool → Asked → Option ℕ → KernelCmd W ℕ
  sent_or built asked event =
      if built
      then (xen_v4v_irp_stack env asked event >>= await env event)
      else pure status_unsuccessful

  sent_or-Kept :
      (floor : ℕ) (more : ℕ → ℕ) (built : Bool) (asked : Asked) (event : Option ℕ) (u : Kernel W)
      → s.refused < floor ⊎ ((e : ℕ) × (event ≡ some e))
      → s.refused ≤ floor
      → Stands s floor v more refs u
      → Kept floor more (sent_or built asked event u)
  sent_or-Kept floor more true asked event u made low h =
      done-Kept floor more event (xen_v4v_irp_stack env asked event) u made low
        (irp_stack-Stands env closes s floor low v more refs d asked event u has_device h)
  sent_or-Kept floor more false asked event u made low h = h

  pub transfer-Kept :
      (floor : ℕ) (more : ℕ → ℕ) (asked : Asked) (u : Kernel W)
      → s.refused ≤ floor
      → Stands s floor v more refs u
      → Kept floor more (transfer env asked u)
  unfolding transfer
  transfer-Kept floor more asked u low h = for_event floor more _ u low h λ event hd f w le st made.
      let held = both more (one hd) in
      let top : s.refused ≤ f = omega (arith, le, low) in
      Outcome-bind (λ built w. Stands s f v held refs w × (Refused s w ⊎ (built ≡ true)))
        (Refused s) (λ _. Stands s f v more refs) (xen_v4v_build_ioctl env asked event w) _
        (build-Stands env closes s f top v held refs d asked event w has_device st)
        λ (built : Bool) x (left, _).
          Kept-bind f f held more (sent_or built asked event x)
            (λ status. closing (env.close) hd >> pure status)
            (sent_or-Kept f held built asked event x made top left)
            λ status y l. end-Kept f more hd status y top l

  pub request_or-Kept :
      (floor : ℕ) (more : ℕ → ℕ) (unbuilt : ℕ) (asked : Asked) (event : Option ℕ) (u : Kernel W)
      → s.refused ≤ floor
      → Stands s floor v more refs u
      → Kept floor more (request_or env unbuilt asked event u)
  unfolding request_or hand_over
  request_or-Kept floor more unbuilt asked event u low h =
      Outcome-bind (λ built w. Stands s floor v more refs w × (Refused s w ⊎ (built ≡ true)))
        (Refused s) (λ _. Stands s floor v more refs) (xen_v4v_build_ioctl env asked event u) _
        (build-Stands env closes s floor low v more refs d asked event u has_device h)
        λ (built : Bool) w (st, made). elim (Bool-cases built) [
          | inl e ↦ rw e (
              Kept-bind floor floor more more (xen_v4v_irp_stack env asked event w) _
                (irp_stack-Stands env closes s floor low v more refs d asked event w has_device st)
                λ _ x left. left)
          | inr e ↦ rw e st
        ]

  pub bind-Kept :
      (floor : ℕ) (more : ℕ → ℕ) (to_domain port : ℕ) (u : Kernel W)
      → s.refused ≤ floor
      → Stands s floor v more refs u
      → Kept floor more (xen_v4v_bind env to_domain port u)
  unfolding xen_v4v_bind
  bind-Kept floor more to_domain port u low h =
      for_event floor more _ u low h λ event hd f w le st made.
        let held = both more (one hd) in
        let top : s.refused ≤ f = omega (arith, le, low) in
        let asked = control (bind (bound_ring env to_domain port)) in
        Kept-bind f f held more (request_or env status_success asked event w) _
          (request_or-Kept f held status_success asked event w top st)
          λ status x left.
            Kept-bind f f more more (close_some env hd x) _
              (close_some-Stands env closes s f top v more refs hd x left) λ _ y l. l
