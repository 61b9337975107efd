-- ===== src/Service/Uninstall/Handles.antt =====
-- The handles of `ServiceUninstall`, and the end of its loop.
use winservice.Base.{
  minus-plus, ℕ, zero, suc, ◌==◌, ◌≡◌, refl, ap, ◌⊎◌, inl, inr, Bool, true, false, Bool-cases,
  Option-cases, codes, Option, none, some, Ends, Ends-bind, ◌++◌, arith,
}
use winservice.Service.Env.{Status, info, ServiceEnv}
use winservice.Service.State.{Agent, plus, minus}
use winservice.Service.Control.{service_stop_pending, service_stopped}
use winservice.Service.Uninstall.{
  display_name, status_call, await_stop, stop_service, remove_service, service_uninstall,
}

module _ {W : Type 0} (env : ServiceEnv W) where
  open env use {
    write_log, query_status, sleep, control_stop, delete_service, open_manager, open_service,
  }

  abbrev pub is_pending : Option Status → Bool
  is_pending none = false
  is_pending (some t) = t.current_state == service_stop_pending

  -- Polled once a second, the service leaves the pending state within so many polls, or cannot be
  -- queried any more.
  abbrev pub StopsWithin : ℕ → ℕ → W → Type 0
  StopsWithin zero h w = ⊥
  StopsWithin (suc fuel) h w =
      (is_pending (query_status h w).0 ≡ false)
      ⊎ StopsWithin fuel h (sleep 1000 (write_log info (codes "Stop pending") (query_status h w).1))

  -- The state behind one more poll.
  abbrev polled : ℕ → Status → Agent W → Agent W
  polled h t s = record s {
    status = t;
    world = sleep 1000 (write_log info (codes "Stop pending") (query_status h s.world).1);
  }

  await_stop-again :
      (fuel h : ℕ) (t : Status) (s : Agent W)
      → (query_status h s.world).0 ≡ some t
      → (t.current_state == service_stop_pending) ≡ true
      → await_stop env (suc fuel) h s ≡ await_stop env fuel h (polled h t s)
  unfolding await_stop
  await_stop-again fuel h t s e more = ground (arith, e, more)

  await_stop-over :
      (fuel h : ℕ) (s : Agent W)
      → is_pending (query_status h s.world).0 ≡ false
      → Ends (λ _ u. u.handles ≡ s.handles) (await_stop env (suc fuel) h s)
  unfolding await_stop
  await_stop-over fuel h s done = ground arith

  await_stop-Ends :
      (fuel h : ℕ) (s : Agent W)
      → StopsWithin fuel h s.world
      → Ends (λ _ u. u.handles ≡ s.handles) (await_stop env fuel h s)
  await_stop-Ends zero h s stops = absurd stops
  await_stop-Ends (suc fuel) h s (inl done) = await_stop-over fuel h s done
  await_stop-Ends (suc fuel) h s (inr later) = elim (Option-cases (query_status h s.world).0) [
    | inl gone ↦ await_stop-over fuel h s (rw gone)
    | inr (t, e) ↦ elim (Bool-cases (t.current_state == service_stop_pending)) [
      | inr over ↦ await_stop-over fuel h s (rw (e, over))
      | inl more ↦
          rw (await_stop-again fuel h t s e more) (await_stop-Ends fuel h (polled h t s) later)
    ]
  ]

  -- The world behind the request to stop and its first second.
  abbrev pub stop_asked : ℕ → W → W
  stop_asked h w =
      sleep 1000 (write_log info (codes "Stopping " ++ display_name) (control_stop h w).1)

  -- Both handles are open.
  abbrev both : ℕ → ℕ → W → Agent W → Agent W
  both m h w s = record s { handles = plus h (plus m s.handles); world = w }

  stop_service-Ends :
      (fuel h : ℕ) (s : Agent W)
      → StopsWithin fuel h (stop_asked h s.world)
      → Ends (λ _ u. u.handles ≡ s.handles) (stop_service env fuel h s)
  unfolding stop_service
  stop_service-Ends fuel h s stops = elim (Option-cases (control_stop h s.world).0) [
    | inl refused ↦ rw (Ends, status_call, refused) refl
    | inr (t, asked) ↦
        let u : Agent W = record s { status = t; world = stop_asked h s.world } in
        rw (Ends, status_call, asked)
          (Ends-bind (λ _ v. v.handles ≡ s.handles) _ (await_stop env fuel h u) _
            (await_stop-Ends fuel h u stops)
            λ _ v kept. elim (Bool-cases (v.status.current_state == service_stopped)) [
              | inl stopped ↦ rw stopped kept
              | inr other ↦ rw other kept
            ])
  ]

  remove_service-Ends :
      (fuel h : ℕ) (s : Agent W)
      → StopsWithin fuel h (stop_asked h s.world)
      → Ends (λ _ u. u.handles ≡ minus h s.handles) (remove_service env fuel h s)
  unfolding remove_service
  remove_service-Ends fuel h s stops =
      Ends-bind (λ _ u. u.handles ≡ s.handles) _ (stop_service env fuel h s) _
        (stop_service-Ends fuel h s stops)
        λ _ t same. elim (Bool-cases (delete_service h t.world).0) [
          | inl deleted ↦ rw deleted (ap (minus h) same)
          | inr kept ↦ rw kept (ap (minus h) same)
        ]

  -- `ServiceUninstall` returns, if the service leaves the pending state within the polls that the
  -- fuel allows, and on every path has closed the handles that it opened.
  pub service_uninstall-balanced :
      (fuel : ℕ) (s : Agent W)
      → ((m h : ℕ) → StopsWithin fuel h (stop_asked h (open_service m (open_manager s.world).1).1))
      → Ends (λ _ u. (a : ℕ) → u.handles a ≡ s.handles a) (service_uninstall env fuel s)
  unfolding service_uninstall
  service_uninstall-balanced fuel s stops =
      let manager = open_manager s.world in
      elim (Option-cases manager.0) [
        | inl refused ↦ rw refused (λ a. refl)
        | inr (m, opened) ↦
            let service = open_service m manager.1 in
            elim (Option-cases service.0) [
              | inl refused ↦ rw (opened, refused) (λ a. minus-plus m s.handles a)
              | inr (h, found) ↦
                  rw (opened, found)
                    (Ends-bind (λ _ u. u.handles ≡ minus h (plus h (plus m s.handles))) _
                      (remove_service env fuel h (both m h service.1 s)) _
                      (remove_service-Ends fuel h (both m h service.1 s) (stops m h))
                      λ _ u kept a. rw kept (ground arith))
            ]
      ]
