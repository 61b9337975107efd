-- ===== src/Kernel/Init.antt =====
-- What XenV4VInitDev leaves.
use winservice.Base.{
  ℕ, ◌≡◌, refl, inl, inr, true, Bool-cases, Option, some, Outcome, Outcome-bind, Outcome-mono,
  arith,
}
use winservice.Kernel.Env.{nt_success, XenV4v, KernelEnv, Kernel}
use winservice.Kernel.Requests.{xen_v4v_create_event, xen_v4v_create_kevent}
use winservice.Kernel.Api.{request_init, end_init, init_with, xen_v4v_init_dev}
use winservice.Kernel.Stands.{one, both, Stands, Refused, HasEvent, kevent-HasEvent}
use winservice.Kernel.Open.{
  Initialized, lower-Initialized, request_init-Initialized, end_init-Initialized,
}

module _ {W : Type 0} (env : KernelEnv W)
    (closes : (h : ℕ) (w : W) → nt_success (env.close (some h) w).0 ≡ true) (s : Kernel W) where
  -- How XenV4VInitDev ends, for some event.
  abbrev pub InitDone : XenV4v → (refs : ℕ → ℕ) → ℕ → (more : ℕ → ℕ) → ℕ → Kernel W → Type 0
  InitDone v refs floor more status u =
      (event : ℕ) × Initialized env closes s v refs event floor (both more (one (some event))) more
        status u

  module _ (v : XenV4v) (refs : ℕ → ℕ) (d : ℕ) (has_device : v.dev_object ≡ some d) where
    init_with-InitDone :
        (more : ℕ → ℕ) (ring_size : ℕ) (event : ℕ) (u : Kernel W)
        → Stands s (s.refused) v (both more (one (some event))) refs u
        → Outcome
            (InitDone v refs (s.refused) more)
            (Refused s)
            (init_with env ring_size (some event) u)
    unfolding init_with
    init_with-InitDone more ring_size event u h =
        let held = both more (one (some event)) in
        Outcome-bind (HasEvent s (s.refused) v held refs) (Refused s)
          (InitDone v refs (s.refused) more) (xen_v4v_create_kevent env u) _
          (kevent-HasEvent env closes s (s.refused) (omega arith) v held refs u h)
          λ (r : Option ℕ × Option ℕ) w (f, le, st, made).
            Outcome-bind
              (Initialized env closes s v refs event f (both held (one r.1)) (both held (one r.1)))
              (Refused s) (InitDone v refs (s.refused) more)
              (request_init env event ring_size r.0 w) _
              (request_init-Initialized env closes s v refs event d has_device f
                (both held (one r.1)) ring_size r.0 w le st)
              λ (status : ℕ) x asked.
                Outcome-mono (Initialized env closes s v refs event f held more)
                  (InitDone v refs (s.refused) more) (Refused s) (end_init env event r.1 status x)
                  (end_init-Initialized env closes s v refs event d has_device f more r.1 status x
                    le asked)
                  λ answer y done. (
                    event,
                    lower-Initialized env closes s v refs event (s.refused) f held more answer y le
                        done,
                  )

    pub init_dev-InitDone :
        (more : ℕ → ℕ) (ring_size : ℕ) (u : Kernel W)
        → Stands s (s.refused) v more refs u
        → Outcome (InitDone v refs (s.refused) more) (Refused s) (xen_v4v_init_dev env ring_size u)
    unfolding xen_v4v_init_dev xen_v4v_create_event
    init_dev-InitDone more ring_size u h =
        let r = env.create_event u.world in
        elim (Bool-cases (nt_success r.0.0)) [
          | inl e ↦ rw e (
              init_with-InitDone more ring_size r.0.1 _ (record {
                grows = h.grows;
                handles = λ a. ground (arith, h.handles a);
                references = h.references;
                context = h.context;
                file = h.file;
                device = h.device;
              }))
          | inr e ↦
              rw (e, init_with)
                (
                  0,
                  inr (
                      inl (
                        refl,
                        record {
                          grows = h.grows;
                          handles = h.handles;
                          references = h.references;
                          context = h.context;
                          file = h.file;
                          device = h.device;
                        },
                      )),
                )
        ]
