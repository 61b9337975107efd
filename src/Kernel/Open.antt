-- ===== src/Kernel/Open.antt =====
-- What the functions that open a channel leave.
use winservice.Base.{
  ℕ, ◌≤◌, ◌==◌, ◌≡◌, ◌⊎◌, refl, ap, inl, inr, true, false, Bool-cases, Option, none, some, pure,
  ◌>>◌, Outcome, Outcome-bind, arith,
}
use winservice.Base.Words.{low32}
use winservice.Channel.Env.{initialize}
use winservice.Kernel.Env.{
  status_unsuccessful, nt_success, v4v_open, V4vContext, XenV4v, control, KernelEnv, Kernel,
}
use winservice.Kernel.Requests.{with_state, with_event, with_event_handle, close_some, request_or}
use winservice.Kernel.Api.{reference_event, request_init, end_init}
use winservice.Kernel.Stands.{
  one, both, Stands, Stands-state, Stands-floor, Stands-more, Refused, close_some-Stands,
}
use winservice.Kernel.Calls.{request_or-Kept}

-- The structure with the event for arrivals.
abbrev pub ready : XenV4v → (event object : ℕ) → XenV4v
ready v event object = with_event_handle (some event) (with_event (some object) v)

abbrev with_context : (event object : ℕ) → V4vContext → V4vContext
with_context event object c = record c { recv_event = some object; recv_event_handle = some event }

module _ {W : Type 0} (env : KernelEnv W)
    (closes : (h : ℕ) (w : W) → nt_success (env.close (some h) w).0 ≡ true) (s : Kernel W) where
  pub close_some-Refused :
      (h : Option ℕ) (u : Kernel W)
      → Refused s u
      → Outcome (λ _. Refused s) (Refused s) (close_some env h u)
  unfolding close_some
  close_some-Refused none u h = h
  close_some-Refused (some e) u h = h

  module _ (v : XenV4v) (refs : ℕ → ℕ) (event : ℕ) where
    -- How a request for an event ends: it is referenced and in the structure, or the driver or the call for
    -- a packet has failed, or something has been refused.
    abbrev pub Initialized : ℕ → (more fewer : ℕ → ℕ) → (status : ℕ) → Kernel W → Type 0
    Initialized floor more fewer status u =
        ((nt_success status ≡ true)
          × (object : ℕ) × Stands s floor (ready v event object) more
              (both refs (one (some object))) u)
        ⊎ ((nt_success status ≡ false) × Stands s floor v fewer refs u)
        ⊎ ((nt_success status ≡ false) × Refused s u)

    reference_event-Initialized :
        (floor : ℕ) (more : ℕ → ℕ) (u : Kernel W)
        → s.refused ≤ floor
        → Stands s floor v more refs u
        → Outcome (Initialized floor more more) (Refused s) (reference_event env event u)
    unfolding reference_event
    reference_event-Initialized floor more u low h =
        let r = env.reference_object event u.world in
        elim (Bool-cases (nt_success r.0.0)) [
          | inl e ↦ rw e (
              inl (
                e,
                r.0.1,
                record {
                  grows = h.grows;
                  handles = h.handles;
                  references = λ a. ground (arith, h.references a);
                  context = ap (with_context event r.0.1) (h.context);
                  file = h.file;
                  device = h.device;
                },
              ))
          | inr e ↦ rw e (inr (inr (e, omega (arith, low, h.grows))))
        ]

    -- A floor of more refusals is one of fewer.
    pub lower-Initialized :
        (floor f : ℕ) (more fewer : ℕ → ℕ) (status : ℕ) (u : Kernel W)
        → floor ≤ f
        → Initialized f more fewer status u
        → Initialized floor more fewer status u
    lower-Initialized floor f more fewer status u le (inl (good, object, h)) =
        inl (good, object, Stands-floor f le h)
    lower-Initialized floor f more fewer status u le (inr (inl (bad, h))) =
        inr (inl (bad, Stands-floor f le h))
    lower-Initialized floor f more fewer status u le (inr (inr out)) = inr (inr out)

    module _ (d : ℕ) (has_device : v.dev_object ≡ some d) where
      pub request_init-Initialized :
          (floor : ℕ) (more : ℕ → ℕ) (ring_size : ℕ) (kevent : Option ℕ) (u : Kernel W)
          → s.refused ≤ floor
          → Stands s floor v more refs u
          → Outcome
              (Initialized floor more more)
              (Refused s)
              (request_init env event ring_size kevent u)
      unfolding request_init
      request_init-Initialized floor more ring_size none u low h = inr (inl (refl, h))
      request_init-Initialized floor more ring_size (some kevent) u low h =
          let asked = control (initialize event (low32 ring_size)) in
          Outcome-bind (λ _. Stands s floor v more refs) (Refused s) (Initialized floor more more)
            (request_or env status_unsuccessful asked (some kevent) u) _
            (request_or-Kept env closes s v refs d has_device floor more status_unsuccessful asked
              (some kevent) u low h)
            λ (status : ℕ) w left. elim (Bool-cases (status == status_unsuccessful)) [
              | inl e ↦ rw e (inr (inl (ground (arith, e), left)))
              | inr e ↦ rw e (reference_event-Initialized floor more w low left)
            ]

      pub end_init-Initialized :
          (floor : ℕ) (more : ℕ → ℕ) (h : Option ℕ) (status : ℕ) (u : Kernel W)
          → s.refused ≤ floor
          → Initialized floor
              (both (both more (one (some event))) (one h))
              (both (both more (one (some event))) (one h))
              status
              u
          → Outcome
              (Initialized floor (both more (one (some event))) more)
              (Refused s)
              (end_init env event h status u)
      unfolding end_init
      end_init-Initialized floor more h status u low (inl (good, object, st)) =
          let v' = ready v event object in
          let refs' = both refs (one (some object)) in
          let u' : Kernel W = record u { v4v = with_state v4v_open u.v4v } in
          rw good (
            Outcome-bind (λ _. Stands s floor v' (both more (one (some event))) refs') (Refused s)
              (Initialized floor (both more (one (some event))) more) (close_some env h u')
              (λ _. pure status)
              (close_some-Stands env closes s floor low v' (both more (one (some event))) refs' h u'
                (Stands-state st (omega arith) (λ a. omega arith) (λ a. omega arith) refl refl
                  refl))
              λ _ w left. inl (good, object, left))
      end_init-Initialized floor more h status u low (inr (inl (bad, st))) = rw bad (
          Outcome-bind (λ _. Stands s floor v (both more (one h)) refs) (Refused s)
            (Initialized floor (both more (one (some event))) more) (close_some env (some event) u)
            (λ _. close_some env h >> pure status)
            (close_some-Stands env closes s floor low v (both more (one h)) refs (some event) u
              (Stands-more (λ a. omega arith) st))
            λ _ w left.
              Outcome-bind (λ _. Stands s floor v more refs) (Refused s)
                (Initialized floor (both more (one (some event))) more) (close_some env h w)
                (λ _. pure status) (close_some-Stands env closes s floor low v more refs h w left)
                λ _ x l. inr (inl (bad, l)))
      end_init-Initialized floor more h status u low (inr (inr (bad, out))) = rw bad (
          Outcome-bind (λ _. Refused s) (Refused s)
            (Initialized floor (both more (one (some event))) more) (close_some env (some event) u)
            (λ _. close_some env h >> pure status) (close_some-Refused (some event) u out)
            λ _ w left.
              Outcome-bind (λ _. Refused s) (Refused s)
                (Initialized floor (both more (one (some event))) more) (close_some env h w)
                (λ _. pure status) (close_some-Refused h w left) λ _ x l. inr (inr (bad, l)))
