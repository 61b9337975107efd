-- ===== src/Service/Control.antt =====
-- `ServiceControlManagerUpdate`, `ServiceInit`, `ServiceControlHandler` and `ServiceMain` of
-- vTopGuestAgent/main.cpp.
use winservice.Base.{
  ℕ, ◌==◌, Bool, true, false, codes, ◌++◌, none, some, if◌then◌else◌, pure, get, modify, ◌>>=◌,
  ◌>>◌,
}
use winservice.Base.Decimal.{show_nat}
use winservice.Service.Env.{info, warn, error, ServiceEnv}
use winservice.Service.State.{AgentCmd, opening, closing, doing}
use winservice.Service.Launch.{launch_app_in_session}

-- The constants of the Windows headers that the service uses.
abbrev pub service_win32 : ℕ
service_win32 = 0x30

abbrev pub service_stopped : ℕ
service_stopped = 1

abbrev pub service_start_pending : ℕ
service_start_pending = 2

abbrev pub service_stop_pending : ℕ
service_stop_pending = 3

abbrev pub service_running : ℕ
service_running = 4

abbrev pub control_stop_code : ℕ
control_stop_code = 1

abbrev pub control_shutdown_code : ℕ
control_shutdown_code = 5

-- `SERVICE_ACCEPT_STOP | SERVICE_ACCEPT_SHUTDOWN`
abbrev pub accepted_controls : ℕ
accepted_controls = 5

module _ {W : Type 0} (env : ServiceEnv W) where
  open env use {write_log, last_error, create_event, set_event, register_handler}
  open env use {set_service_status, wait, close_handle}

  unfoldable pub service_control_manager_update : ℕ → ℕ → AgentCmd W (Unit {0})
  service_control_manager_update exit_code state = do
    modify (λ s. record s {
      status = record (s.status) { win32_exit_code = exit_code; current_state = state };
    })
    s ← get
    doing (set_service_status s.h_status s.status)

  unfoldable pub service_init : AgentCmd W Bool
  service_init = do
    modify (λ s. record s {
      status = record {
        service_type = service_win32;
        current_state = service_start_pending;
        controls_accepted = accepted_controls;
        win32_exit_code = 0;
        service_specific_exit_code = 0;
        check_point = 0;
        wait_hint = 0;
      };
    })
    s ← get
    let (h, w) = register_handler s.world
    modify (λ s. record s { h_status = h; world = w })
    elim h [
      | none ↦ (do
        doing (
            write_log error (
              codes "XenSvc: Registering service control handler failed - "
              ++ show_nat (last_error w)))
        pure false)
      | some _ ↦ (do
        modify (λ s. record s { status = record (s.status) { current_state = service_running } })
        s ← get
        doing (set_service_status s.h_status s.status)
        pure true)
    ]

  -- Both stop requests do this.
  unfoldable pub request_stop : AgentCmd W (Unit {0})
  unfolding service_control_manager_update
  request_stop = do
    service_control_manager_update 0 service_stop_pending
    s ← get
    doing (set_event s.exit_event)

  unfoldable pub service_control_handler : ℕ → AgentCmd W (Unit {0})
  unfolding request_stop
  service_control_handler request =
      if request == control_stop_code
      then (do doing (write_log info (codes "XenSvc: xenservice stopped")); request_stop)
      else if request == control_shutdown_code
      then (do doing (write_log info (codes "XenSvc: xenservice shutdown")); request_stop)
      else doing (write_log warn (codes "XenSvc: unknown request"))

  -- Up to the wait for the exit event, and behind it.
  unfoldable pub service_main_start : AgentCmd W Bool
  unfolding service_init
  service_main_start = do
    doing (write_log info (codes "ServiceMain :start"))
    event ← opening create_event
    modify (λ s. record s { exit_event = event })
    elim event [
      | none ↦ (do
        s ← get
        doing (
            write_log error
              (codes "XenSvc: Unable to create the event obj - " ++ show_nat (last_error s.world)))
        pure false)
      | some _ ↦ (do
        started ← service_init
        if started then (do launch_app_in_session env (codes "notepad"); pure true) else (do
          doing (write_log error (codes "XenSvc: Unable to init xenservice"))
          pure false))
    ]

  unfoldable pub service_main_end : AgentCmd W (Unit {0})
  unfolding service_control_manager_update
  service_main_end = do
    service_control_manager_update 0 service_stopped
    s ← get
    elim s.exit_event [ none ↦ pure tt | some h ↦ closing close_handle h ]
    doing (write_log info (codes "ServiceMain :end"))

  -- The control handler runs on another thread while this one waits.
  unfoldable pub service_main : AgentCmd W (Unit {0})
  unfolding service_main_start service_main_end
  service_main = do
    waits ← service_main_start
    if waits then (do s ← get; doing (wait s.exit_event none); service_main_end) else pure tt
