-- ===== src/Kernel/Bind.antt =====
-- What XenV4VBind answers.
use winservice.Base.{
  ℕ, ◌≤◌, ◌<◌, ◌==◌, ◌||◌, ◌≡◌, ◌⊎◌, refl, ap, ◌∙◌, inl, inr, Bool-cases, Option-cases, Option,
  none, some, List, ◌∷◌, Ends, Ends-bind, if◌then◌else◌, arith,
}
use winservice.Channel.Env.{bind}
use winservice.Kernel.Env.{
  status_success, status_pending, status_unsuccessful, XenV4v, control, Irp, KernelEnv, Kernel,
}
use winservice.Kernel.Requests.{
  second_event, xen_v4v_create_kevent, xen_v4v_build_ioctl, xen_v4v_irp_stack, close_some,
  hand_over, request_or,
}
use winservice.Kernel.Api.{bound_ring, xen_v4v_bind}

abbrev pub IsNarrow : ℕ → Type 0
IsNarrow status =
    (status ≡ status_success) ⊎ (status ≡ status_pending) ⊎ (status ≡ status_unsuccessful)

answered-IsNarrow :
    (status : ℕ)
    → IsNarrow (
        if (status == status_success) || (status == status_pending)
        then status
        else status_unsuccessful)
answered-IsNarrow status = ground arith

module _ {W : Type 0} (env : KernelEnv W) where
  -- The packet that asks for a ring.
  abbrev pub bind_packet : (d : ℕ) → XenV4v → (to_domain port : ℕ) → Option ℕ → Irp
  bind_packet d v to_domain port event = record {
    asked = control (bind (bound_ring env to_domain port));
    event = event;
    device_object = d;
    file_object = v.file_object;
  }

  -- The structure and the requests of another state.
  abbrev Alike : Kernel W → Kernel W → Type 0
  Alike s u = (u.v4v ≡ s.v4v) × (u.handed ≡ s.handed) × (s.refused ≤ u.refused)

  kevent-Alike : (s : Kernel W) → Ends (λ _. Alike s) (xen_v4v_create_kevent env s)
  unfolding xen_v4v_create_kevent second_event
  kevent-Alike s =
      let first = env.create_synchronization_event s.world in
      elim (Option-cases first.0) [
        | inl e ↦ elim (Option-cases (env.create_synchronization_event first.1).0) [
          | inl c ↦ rw (e, c) (refl, refl, omega arith)
          | inr (p, c) ↦ rw (e, c) (refl, refl, omega arith)
        ]
        | inr (p, e) ↦ rw e (refl, refl, omega arith)
      ]

  close_some-Alike : (h : Option ℕ) (s : Kernel W) → Ends (λ _. Alike s) (close_some env h s)
  unfolding close_some
  close_some-Alike none s = (refl, refl, omega arith)
  close_some-Alike (some h) s = (refl, refl, omega arith)

  -- How the request for a ring ends.
  abbrev pub Asks :
      (d : ℕ) → XenV4v → List Irp → (refused to_domain port : ℕ) → ℕ → Kernel W → Type 0
  Asks d v handed refused to_domain port status u =
      ((event : Option ℕ) × (u.handed ≡ bind_packet d v to_domain port event ∷ handed)
        × IsNarrow status)
      ⊎ ((u.handed ≡ handed) × (refused < u.refused) × (status ≡ status_success))

  request-Asks :
      (d refused to_domain port : ℕ) (event : Option ℕ) (v : XenV4v) (handed : List Irp)
      (u : Kernel W)
      → v.dev_object ≡ some d
      → u.v4v ≡ v
      → u.handed ≡ handed
      → refused ≤ u.refused
      → Ends
          (Asks d v handed refused to_domain port)
          (request_or env status_success (control (bind (bound_ring env to_domain port))) event u)
  unfolding request_or hand_over xen_v4v_build_ioctl xen_v4v_irp_stack
  request-Asks d refused to_domain port event v handed u has_device same before low =
      let asked = control (bind (bound_ring env to_domain port)) in
      let is : u.v4v.dev_object ≡ some d = ap (λ w. w.dev_object) same ∙ has_device in
      let file : u.v4v.file_object ≡ v.file_object = ap (λ w. w.file_object) same in
      let r = env.build_request d asked event u.world in
      let answer = (env.call_driver d (bind_packet d u.v4v to_domain port event) r.1).0 in
      elim (Bool-cases r.0) [
        | inl e ↦ simp (is, e) (inl (event, cc (before, file), answered-IsNarrow answer))
        | inr e ↦ simp (is, e) (inr (before, omega (arith, low), refl))
      ]

  -- Where there is a device object, XenV4VBind returns. Either the driver has got one packet, the one for
  -- the ring, and the answer is `STATUS_SUCCESS`, `STATUS_PENDING` or `STATUS_UNSUCCESSFUL`; or the
  -- driver has got nothing, an event or a packet was refused, and the answer is `STATUS_SUCCESS`.
  pub bind-Asks :
      (d to_domain port : ℕ) (s : Kernel W)
      → s.v4v.dev_object ≡ some d
      → Ends (Asks d s.v4v s.handed s.refused to_domain port) (xen_v4v_bind env to_domain port s)
  unfolding xen_v4v_bind
  bind-Asks d to_domain port s has_device =
      Ends-bind (λ _. Alike s) (Asks d s.v4v s.handed s.refused to_domain port)
        (xen_v4v_create_kevent env s) _ (kevent-Alike s)
        λ (r : Option ℕ × Option ℕ) u (same, before, low).
          let asked = control (bind (bound_ring env to_domain port)) in
          Ends-bind (Asks d s.v4v s.handed s.refused to_domain port)
            (Asks d s.v4v s.handed s.refused to_domain port)
            (request_or env status_success asked r.0 u) _
            (request-Asks d s.refused to_domain port r.0 s.v4v s.handed u has_device same before
              low)
            λ (status : ℕ) w asks.
              Ends-bind (λ _. Alike w) (Asks d s.v4v s.handed s.refused to_domain port)
                (close_some env r.1 w) _ (close_some-Alike r.1 w)
                λ _ x (_, last, more). ground (arith, asks, last, more)
