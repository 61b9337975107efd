-- ===== src/Kernel/Opening.antt =====
-- What XenV4VOpenDgramPort and XenV4VOpenDevice leave.
use winservice.Base.{
  ℕ, ◌+◌, ◌==◌, ◌≡◌, ◌≢◌, ◌⊎◌, refl, ap, inl, inr, true, false, plus, Bool-cases, Option, none,
  some, pure, ◌>>=◌, Outcome, Outcome-bind, Outcome-mono, if◌then◌else◌, arith,
}
use winservice.Kernel.Env.{
  status_success, nt_success, V4vContext, XenV4v, KernelEnv, Kernel, KernelCmd,
}
use winservice.Kernel.Requests.{with_handle, with_file, with_device}
use winservice.Kernel.Api.{xen_v4v_init_dev, settle, reference_file, set_up, open_with}
use winservice.Kernel.Stands.{no_count, one, both, Stands, Stands-more, Refused}
use winservice.Kernel.Open.{ready}
use winservice.Kernel.Init.{InitDone, init_dev-InitDone}
use winservice.Kernel.Settle.{settle_failed-Stands, settle-Refused}

abbrev with_file_handle : Option ℕ → V4vContext → V4vContext
with_file_handle h c = record c { v4v_handle = h }

module _ {W : Type 0} (env : KernelEnv W)
    (closes : (h : ℕ) (w : W) → nt_success (env.close (some h) w).0 ≡ true) (s : Kernel W) where
  -- The structure of an opened channel.
  abbrev pub opened_as : (hd event object file device : ℕ) → XenV4v
  opened_as hd event object file device =
      with_handle (some hd) (ready (with_device device (with_file (some file) s.v4v)) event object)

  -- How an opening ends: with the file and the event open and both referenced, or with what was open
  -- before, or where something has been refused.
  abbrev pub OpenDone : ℕ → Kernel W → Type 0
  OpenDone status u =
      ((status ≡ status_success)
        × (hd : ℕ) × (event : ℕ) × (object : ℕ) × (file : ℕ) × (device : ℕ) × Stands s (s.refused)
            (opened_as hd event object file device) (both (one (some event)) (one (some hd)))
            (both (one (some file)) (one (some object))) u)
      ⊎ ((status ≢ status_success) × ((a : ℕ) → u.opened a + s.closed a ≡ u.closed a + s.opened a))
      ⊎ ((status ≢ status_success) × Refused s u)

  module _ (hd file device : ℕ) where
    abbrev base : XenV4v
    base = with_device device (with_file (some file) s.v4v)

    settle-OpenDone :
        (event object : ℕ) (status : ℕ) (u : Kernel W)
        → Stands s
            (s.refused)
            (ready base event object)
            (both (one (some event)) (one (some hd)))
            (both (one (some file)) (one (some object)))
            u
        → Outcome OpenDone (Refused s) (settle env (some hd) status u)
    settle-OpenDone event object status u h = elim (Bool-cases (status == status_success)) [
      | inl e ↦
          unfold settle in
          rw e (
            inl (
              ground (arith, e),
              hd,
              event,
              object,
              file,
              device,
              record {
                grows = h.grows;
                handles = h.handles;
                references = h.references;
                context = ap (with_file_handle (some hd)) (h.context);
                file = h.file;
                device = h.device;
              },
            ))
      | inr e ↦
          Outcome-mono
            (λ (a : ℕ) w.
              (a ≡ status)
              × Stands s (s.refused) (ready base event object) no_count
                  (both (one (some file)) (one (some object))) w)
            OpenDone (Refused s) (settle env (some hd) status u)
            (settle_failed-Stands env closes s (ready base event object)
              (both (one (some file)) (one (some object))) (some hd) status u e h)
            λ a w (is, st). inr (inl (ground (arith, is, e), λ x. omega (arith, st.handles x)))
    ]

    -- What is asked for behind the start, and the end of an opening.
    abbrev finish : KernelCmd W ℕ → ℕ → KernelCmd W ℕ
    finish rest status =
        (if status == status_success then rest else pure status) >>= settle env (some hd)

    -- `rest` keeps what stands, once there is a device.
    finish-OpenDone :
        (rest : KernelCmd W ℕ) (status : ℕ) (u : Kernel W)
        → s.v4v.ctx.recv_event_handle ≡ none
        → ((v : XenV4v) (refs more : ℕ → ℕ) (w : Kernel W)
            → v.dev_object ≡ some device
            → Stands s (s.refused) v more refs w
            → Outcome (λ _. Stands s (s.refused) v more refs) (Refused s) (rest w))
        → InitDone env closes s base (one (some file)) (s.refused) (one (some hd)) status u
        → Outcome OpenDone (Refused s) (finish rest status u)
    finish-OpenDone rest status u unset keeps (event, inl (good, object, h)) =
        let v = ready base event object in
        let held = both (one (some event)) (one (some hd)) in
        let refs = both (one (some file)) (one (some object)) in
        let st : Stands s (s.refused) v held refs u = Stands-more (λ a. omega arith) h in
        elim (Bool-cases (status == status_success)) [
          | inl e ↦ rw e (
              Outcome-bind (λ _. Stands s (s.refused) v held refs) (Refused s) OpenDone (rest u)
                (settle env (some hd)) (keeps v refs held u refl st)
                λ a w l. settle-OpenDone event object a w l)
          | inr e ↦ rw e (settle-OpenDone event object status u st)
        ]
    finish-OpenDone rest status u unset keeps (event, inr (inl (bad, h))) =
        let e : (status == status_success) ≡ false = ground (arith, bad) in
        let st : Stands s (s.refused) base (both (one base.ctx.recv_event_handle) (one (some hd)))
            (one (some file)) u =
          Stands-more (λ a. omega (arith, ap (λ o. one o a) unset)) h in
        rw e (
          Outcome-mono
            (λ (a : ℕ) w. (a ≡ status) × Stands s (s.refused) base no_count (one (some file)) w)
            OpenDone (Refused s) (settle env (some hd) status u)
            (settle_failed-Stands env closes s base (one (some file)) (some hd) status u e st)
            λ a w (is, l). inr (inl (ground (arith, is, e), λ x. omega (arith, l.handles x))))
    finish-OpenDone rest status u unset keeps (event, inr (inr (bad, out))) =
        let e : (status == status_success) ≡ false = ground (arith, bad) in
        rw e (
          Outcome-mono (λ (a : ℕ) w. (a ≡ status) × Refused s w) OpenDone (Refused s)
            (settle env (some hd) status u) (settle-Refused env closes s (some hd) status u e out)
            λ a w (is, l). inr (inr (ground (arith, is, e), l)))

  module _ (unset_file : s.v4v.file_object ≡ none)
      (unset_event : s.v4v.ctx.recv_event_handle ≡ none) (rest : KernelCmd W ℕ)
      (keeps : (v : XenV4v) (device : ℕ) (refs more : ℕ → ℕ) (w : Kernel W)
        → v.dev_object ≡ some device
        → Stands s (s.refused) v more refs w
        → Outcome (λ _. Stands s (s.refused) v more refs) (Refused s) (rest w)) where
    set_up-OpenDone :
        (ring_size hd status : ℕ) (world : W)
        → Outcome OpenDone (Refused s) (
            set_up env ring_size rest
              (some hd)
              status
              (record s { opened = plus hd s.opened; world = world }))
    unfolding set_up reference_file
    set_up-OpenDone ring_size hd status world =
        let r = env.reference_object hd world in
        elim (Bool-cases (nt_success r.0.0)) [
          | inl e ↦ rw e (
              let file = r.0.1 in
              let device = env.device_of file r.1 in
              let v = base hd file device in
              let u : Kernel W = record s {
                v4v = v;
                opened = plus hd s.opened;
                referenced = plus file s.referenced;
                world = r.1;
              } in
              Outcome-bind (InitDone env closes s v (one (some file)) (s.refused) (one (some hd)))
                (Refused s) OpenDone (xen_v4v_init_dev env ring_size u) (finish hd file device rest)
                (init_dev-InitDone env closes s v (one (some file)) device refl (one (some hd))
                  ring_size u
                  (record {
                    grows = omega arith;
                    handles = λ a. ground arith;
                    references = λ a. ground arith;
                    context = refl;
                    file = refl;
                    device = refl;
                  }))
                λ a w done.
                  finish-OpenDone hd file device rest a w unset_event
                    (λ v' refs more x is st. keeps v' device refs more x is st) done)
          | inr e ↦ rw (e, unset_file) (omega arith)
        ]

    pub open_with-OpenDone :
        (ring_size : ℕ) → Outcome OpenDone (Refused s) (open_with env ring_size rest s)
    unfolding open_with
    open_with-OpenDone ring_size =
        let r = env.create_file s.world in
        elim (Bool-cases (nt_success r.0.0)) [
          | inl e ↦ rw e (set_up-OpenDone ring_size r.0.1 r.0.0 r.1)
          | inr e ↦ rw e (
              let bad : (r.0.0 == status_success) ≡ false = ground (arith, e) in
              let u : Kernel W = record s { world = r.1 } in
              Outcome-mono
                (λ (a : ℕ) w. (a ≡ r.0.0) × Stands s (s.refused) s.v4v no_count no_count w) OpenDone
                (Refused s) (settle env none r.0.0 u)
                (settle_failed-Stands env closes s s.v4v no_count none r.0.0 u bad (record {
                  grows = omega arith;
                  handles = λ a. omega (arith, ap (λ o. one o a) unset_event);
                  references = λ a. omega arith;
                  context = refl;
                  file = refl;
                  device = refl;
                }))
                λ a w (is, l). inr (inl (ground (arith, is, bad), λ x. omega (arith, l.handles x))))
        ]
