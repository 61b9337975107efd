-- ===== src/Service/Lifecycle/Invariant.antt =====
-- The states in which the service's status says what the service does.
use mathlib.Core.Path.{subst}
use winservice.Base.{
  ℕ, ◌==◌, ◌≡◌, refl, ◌∙◌, ap, inl, inr, Bool, true, false, Bool-cases, Option-cases, Text, codes,
  some, ok, Ends, Ends-bind, arith,
}
use winservice.Service.Env.{info, ServiceEnv}
use winservice.Service.State.{Agent, plus}
use winservice.Service.Launch.{launch_app_in_session}
use winservice.Service.Launch.Statics.{Same, launch_app_in_session-Same}
use winservice.Service.Control.{
  request_stop, service_control_handler, control_stop_code, control_shutdown_code, service_init,
  service_main_start, service_main_end, service_running, service_stop_pending, service_stopped,
}
use winservice.Service.Lifecycle.{
  EventLaws, Phase, fresh, waiting, ended, failed, Session, Step, start, fail, control, finish,
  Reach, here, step,
}

-- At the wait: running, and pending as soon as the event is signalled.
abbrev pub state_for : Bool → ℕ
state_for true = service_stop_pending
state_for false = service_running

module _ {W : Type 0} (env : ServiceEnv W) (laws : EventLaws env) where
  pub record IsWaiting (s : Agent W) : Type 0 where
    pub current_state : s.status.current_state ≡ state_for (laws.signalled s.world)
    pub exit_code : s.status.win32_exit_code ≡ 0
    pub event : (h : ℕ) × (s.exit_event ≡ some h)

  abbrev pub InPhase : Phase → Agent W → Type 0
  InPhase fresh s = Unit
  InPhase failed s = Unit
  InPhase waiting s = IsWaiting s
  InPhase ended s = (s.status.current_state ≡ service_stopped) × (s.status.win32_exit_code ≡ 0)

  open env use {register_handler, write_log, create_event}
  open laws use {set_event-signalled, set_service_status-signalled, write_log-signalled}

  -- A stop request leaves the status pending and the event signalled.
  request_stop-IsWaiting :
      (h : ℕ) (s : Agent W) → s.exit_event ≡ some h → Ends (λ _ t. IsWaiting t) (request_stop env s)
  unfolding request_stop
  request_stop-IsWaiting h s e = record {
    current_state = rw (e, set_event-signalled h) refl;
    exit_code = refl;
    event = (h, e);
  }

  service_control_handler-IsWaiting :
      (request : ℕ) (s : Agent W)
      → IsWaiting s
      → Ends (λ _ t. IsWaiting t) (service_control_handler env request s)
  unfolding service_control_handler
  service_control_handler-IsWaiting request s waits =
      let stop : (message : Text)
          → Ends (λ _ t. IsWaiting t)
              (request_stop env (record s { world = write_log info message s.world })) =
        λ message.
          request_stop-IsWaiting waits.event.0 (record s { world = write_log info message s.world })
            waits.event.1 in
      elim (Bool-cases (request == control_stop_code)) [
        | inl e ↦ rw e (stop (codes "XenSvc: xenservice stopped"))
        | inr n ↦ elim (Bool-cases (request == control_shutdown_code)) [
          | inl e ↦ rw (n, e) (stop (codes "XenSvc: xenservice shutdown"))
          | inr m ↦
              rw (n, m)
                (record {
                  current_state = rw (write_log-signalled) waits.current_state;
                  exit_code = waits.exit_code;
                  event = waits.event;
                })
        ]
      ]

  -- The service runs and has its event.
  record Runs (s : Agent W) : Type 0 where
    current_state : s.status.current_state ≡ service_running
    exit_code : s.status.win32_exit_code ≡ 0
    event : (h : ℕ) × (s.exit_event ≡ some h)

  service_init-Runs :
      (h : ℕ) (s : Agent W)
      → s.exit_event ≡ some h
      → Ends (λ started t. started ≡ true → Runs t) (service_init env s)
  unfolding service_init
  service_init-Runs h s made = elim (Option-cases (register_handler s.world).0) [
    | inl e ↦ rw e (λ no. ground arith)
    | inr (r, e) ↦ rw e (λ _. record { current_state = refl; exit_code = refl; event = (h, made) })
  ]

  Same-Runs : {s u : Agent W} → Same s u → Runs s → Runs u
  Same-Runs same runs = record {
    current_state = ap (λ t. t.current_state) same.status ∙ runs.current_state;
    exit_code = ap (λ t. t.win32_exit_code) same.status ∙ runs.exit_code;
    event = (runs.event.0, same.exit_event ∙ runs.event.1);
  }

  service_main_start-Runs :
      (s : Agent W) → Ends (λ waits t. waits ≡ true → Runs t) (service_main_start env s)
  unfolding service_main_start
  service_main_start-Runs s =
      let event = create_event (write_log info (codes "ServiceMain :start") s.world) in
      elim (Option-cases event.0) [
        | inl e ↦ rw e (λ no. ground arith)
        | inr (h, e) ↦
            let t : Agent W = record s {
              exit_event = some h;
              handles = plus h s.handles;
              world = event.1;
            } in
            rw e (
              Ends-bind (λ started u. started ≡ true → Runs u) _ (service_init env t) _
                (service_init-Runs h t refl)
                λ started u runs. elim (Bool-cases started) [
                  | inr refused ↦ rw refused (λ no. ground arith)
                  | inl done ↦ rw done (
                      Ends-bind (λ _ v. Same u v) _ (launch_app_in_session env (codes "notepad") u)
                        _ (launch_app_in_session-Same env (codes "notepad") u)
                        λ _ v same _. Same-Runs same (runs done))
                ])
      ]

  -- `ServiceMain` at its wait.
  service_main_start-IsWaiting :
      (s t : Agent W)
      → service_main_start env s ≡ ok true t
      → laws.signalled t.world ≡ false
      → IsWaiting t
  service_main_start-IsWaiting s t run quiet =
      let runs =
        subst (Ends (λ waits u. waits ≡ true → Runs u)) run (service_main_start-Runs s) refl in
      record {
        current_state = rw quiet runs.current_state;
        exit_code = runs.exit_code;
        event = runs.event;
      }

  service_main_end-stops : (s : Agent W) → Ends (λ _ t. InPhase ended t) (service_main_end env s)
  unfolding service_main_end
  service_main_end-stops s = elim (Option-cases s.exit_event) [
    | inl e ↦ rw e (refl, refl)
    | inr (h, e) ↦ rw e (refl, refl)
  ]

  Step-InPhase :
      {u v : Session W} → Step env laws u v → InPhase u.phase u.agent → InPhase v.phase v.agent
  Step-InPhase (start {s} {t} run quiet) _ = service_main_start-IsWaiting s t run quiet
  Step-InPhase (fail run) _ = tt
  Step-InPhase (control {s} request run) waits =
      subst (Ends (λ _ t. IsWaiting t)) run (service_control_handler-IsWaiting request s waits)
  Step-InPhase (finish {s} signalled run) _ =
      subst (Ends (λ _ t. InPhase ended t)) run (service_main_end-stops s)

  -- Whatever steps the service takes: while `ServiceMain` waits, the status is RUNNING as long as the
  -- exit event is not signalled and STOP_PENDING from then on, with exit code 0 and an exit event;
  -- at the end it is STOPPED with exit code 0. The laws say how `SetEvent` and the other calls of
  -- the control handler change the event.
  pub Reach-InPhase : {s : Agent W} {u : Session W} → Reach env laws s u → InPhase u.phase u.agent
  Reach-InPhase here = tt
  Reach-InPhase (step r move) = Step-InPhase move (Reach-InPhase r)
