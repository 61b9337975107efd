-- ===== src/Kernel/Stands.antt =====
-- What a call has opened and referenced since another state, and the pieces of the calls.
use winservice.Base.{
  ℕ, ◌+◌, ◌<◌, ◌≤◌, ◌≡◌, ◌⊎◌, refl, inl, inr, true, Option-cases, Option, none, some, holding,
  Outcome, arith,
}
use winservice.Kernel.Env.{nt_success, XenV4v, KernelEnv, Kernel, closing}
use winservice.Kernel.Requests.{second_event, xen_v4v_create_kevent, close_some}

abbrev pub no_count : ℕ → ℕ
no_count a = 0

-- One handle, or none.
abbrev pub one : Option ℕ → ℕ → ℕ
one h = holding h no_count

abbrev pub both : (ℕ → ℕ) → (ℕ → ℕ) → ℕ → ℕ
both f g a = f a + g a

module _ {W : Type 0} where
  -- From `s` to `u`, `more` handles are open and `refs` references are held besides those of `s`, and the
  -- structure is `v`, up to its state. At least `floor` events, packets and references have been refused.
  pub record Stands (s : Kernel W) (floor : ℕ) (v : XenV4v) (more refs : ℕ → ℕ) (u : Kernel W)
      : Type 0 where
    pub grows : floor ≤ u.refused
    pub handles : (a : ℕ) → u.opened a + s.closed a ≡ u.closed a + s.opened a + more a
    pub references :
        (a : ℕ) → u.referenced a + s.dereferenced a ≡ u.dereferenced a + s.referenced a + refs a
    pub context : u.v4v.ctx ≡ v.ctx
    pub file : u.v4v.file_object ≡ v.file_object
    pub device : u.v4v.dev_object ≡ v.dev_object

  -- An event, a packet or a reference has been refused since `s`.
  abbrev pub Refused : Kernel W → Kernel W → Type 0
  Refused s u = s.refused < u.refused

  abbrev pub HasEvent :
      Kernel W → ℕ → XenV4v → (more refs : ℕ → ℕ) → Option ℕ × Option ℕ → Kernel W → Type 0
  HasEvent s floor v more refs r u =
      (f : ℕ) × (floor ≤ f)
      × Stands s f v (both more (one r.1)) refs u
      × (s.refused < f ⊎ ((e : ℕ) × (r.0 ≡ some e)))

  -- The state of the structure alone is another.
  pub Stands-state :
      {s : Kernel W} {floor : ℕ} {v : XenV4v} {more refs : ℕ → ℕ} {u w : Kernel W}
      → Stands s floor v more refs u
      → u.refused ≤ w.refused
      → ((a : ℕ) → w.opened a + u.closed a ≡ w.closed a + u.opened a)
      → ((a : ℕ) → w.referenced a + u.dereferenced a ≡ w.dereferenced a + u.referenced a)
      → w.v4v.ctx ≡ u.v4v.ctx
      → w.v4v.file_object ≡ u.v4v.file_object
      → w.v4v.dev_object ≡ u.v4v.dev_object
      → Stands s floor v more refs w
  Stands-state h r o f c i d = record {
    grows = omega (arith, h.grows);
    handles = λ a. omega (arith, h.handles a, o a);
    references = λ a. omega (arith, h.references a, f a);
    context = cc (h.context);
    file = cc (h.file);
    device = cc (h.device);
  }

  pub Stands-floor :
      {s : Kernel W} {floor : ℕ} {v : XenV4v} {more refs : ℕ → ℕ} (f : ℕ) {u : Kernel W}
      → floor ≤ f
      → Stands s f v more refs u
      → Stands s floor v more refs u
  Stands-floor f le h = record {
    grows = omega (arith, le, h.grows);
    handles = h.handles;
    references = h.references;
    context = h.context;
    file = h.file;
    device = h.device;
  }

  pub Stands-more :
      {s : Kernel W} {floor : ℕ} {v : XenV4v} {more fewer refs : ℕ → ℕ} {u : Kernel W}
      → ((a : ℕ) → more a ≡ fewer a)
      → Stands s floor v more refs u
      → Stands s floor v fewer refs u
  Stands-more same h = record {
    grows = h.grows;
    handles = λ a. omega (arith, h.handles a, same a);
    references = h.references;
    context = h.context;
    file = h.file;
    device = h.device;
  }

module _ {W : Type 0} (env : KernelEnv W)
    (closes : (h : ℕ) (w : W) → nt_success (env.close (some h) w).0 ≡ true) (s : Kernel W)
    (floor : ℕ) (low : s.refused ≤ floor) (v : XenV4v) (more refs : ℕ → ℕ) where
  open env use {close, create_synchronization_event, build_request, call_driver}

  pub kevent-HasEvent :
      (u : Kernel W)
      → Stands s floor v more refs u
      → Outcome (HasEvent s floor v more refs) (Refused s) (xen_v4v_create_kevent env u)
  unfolding xen_v4v_create_kevent second_event
  kevent-HasEvent u h =
      let first = create_synchronization_event u.world in
      elim (Option-cases first.0) [
        | inl e ↦ elim (Option-cases (create_synchronization_event first.1).0) [
          | inl d ↦
              rw (e, d)
                (
                  floor + 1,
                  omega arith,
                  record {
                    grows = omega (arith, h.grows);
                    handles = λ a. omega (arith, h.handles a);
                    references = h.references;
                    context = h.context;
                    file = h.file;
                    device = h.device;
                  },
                  inl (omega (arith, low)),
                )
          | inr (p, d) ↦
              rw (e, d)
                (
                  floor + 1,
                  omega arith,
                  record {
                    grows = omega (arith, h.grows);
                    handles = λ a. ground (arith, h.handles a);
                    references = h.references;
                    context = h.context;
                    file = h.file;
                    device = h.device;
                  },
                  inl (omega (arith, low)),
                )
        ]
        | inr (p, e) ↦ rw e (
          floor,
          omega arith,
          record {
            grows = h.grows;
            handles = λ a. ground (arith, h.handles a);
            references = h.references;
            context = h.context;
            file = h.file;
            device = h.device;
          },
          inr (p.0, refl),
        )
      ]

  pub closing-Stands :
      (h : Option ℕ) (u : Kernel W)
      → Stands s floor v (both more (one h)) refs u
      → Outcome (λ _. Stands s floor v more refs) (Refused s) (closing close h u)
  closing-Stands none u h = record {
    grows = h.grows;
    handles = λ a. ground (arith, h.handles a);
    references = h.references;
    context = h.context;
    file = h.file;
    device = h.device;
  }
  closing-Stands (some e) u h = record {
    grows = h.grows;
    handles = λ a. ground (arith, h.handles a, closes e u.world);
    references = h.references;
    context = h.context;
    file = h.file;
    device = h.device;
  }

  pub close_some-Stands :
      (h : Option ℕ) (u : Kernel W)
      → Stands s floor v (both more (one h)) refs u
      → Outcome (λ _. Stands s floor v more refs) (Refused s) (close_some env h u)
  unfolding close_some
  close_some-Stands none u h = Stands-more {fewer = more} (λ a. omega arith) h
  close_some-Stands (some e) u h = closing-Stands (some e) u h
