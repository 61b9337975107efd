-- ===== src/Service/Uninstall.antt =====
-- `ServiceUninstall` of vTopGuestAgent/main.cpp.
pub mod Handles
use winservice.Base.{
  ℕ, zero, suc, ◌+◌, ◌==◌, Bool, true, false, Text, codes, ◌++◌, Option, none, some, if◌then◌else◌,
  ok, crash, Cmd, pure, get, modify, abort, ◌>>=◌, ◌>>◌,
}
use winservice.Base.Decimal.{show_nat}
use winservice.Service.Env.{Status, Level, info, warn, error, ServiceEnv}
use winservice.Service.State.{Agent, AgentCmd, opening, closing, calling, doing}
use winservice.Service.Control.{service_stopped, service_stop_pending}

abbrev pub display_name : Text
display_name = codes "Halsign Tools for Virtual Machines Service"

module _ {W : Type 0} (env : ServiceEnv W) where
  open env use {write_log, last_error, open_manager, open_service, control_stop, query_status}
  open env use {sleep, delete_service, close_service_handle}

  -- A successful call writes `_ServiceStatus`; the result is whether it succeeded.
  abbrev pub status_call : (W → Option Status × W) → AgentCmd W Bool
  status_call call s =
      let r = call s.world in
      elim r.0 [
        | none ↦ ok false (record s { world = r.1 })
        | some t ↦ ok true (record s { status = t; world = r.1 })
      ]

  -- The loop that awaits the end of the stop; without fuel it does not return.
  unfoldable pub await_stop : ℕ → ℕ → AgentCmd W (Unit {0})
  await_stop zero h = abort
  await_stop (suc fuel) h =
      let again = await_stop fuel h in
      do
        queried ← status_call (query_status h)
        if queried
            then (do
              s ← get
              if s.status.current_state == service_stop_pending
                  then (do doing (write_log info (codes "Stop pending")); doing (sleep 1000); again)
                  else pure tt)
            else pure tt

  unfoldable pub stop_service : ℕ → ℕ → AgentCmd W (Unit {0})
  unfolding await_stop
  stop_service fuel h = do
    stopping ← status_call (control_stop h)
    if stopping
        then (do
          doing (write_log info (codes "Stopping " ++ display_name))
          doing (sleep 1000)
          await_stop fuel h
          s ← get
          if s.status.current_state == service_stopped
              then doing (write_log info (display_name ++ codes " stopped"))
              else doing (write_log info (display_name ++ codes " failed to stop")))
        else pure tt

  -- The calls on the open service.
  unfoldable pub remove_service : ℕ → ℕ → AgentCmd W (Unit {0})
  unfolding stop_service
  remove_service fuel h = do
    stop_service fuel h
    deleted ← calling (delete_service h)
    s ← get
    if deleted
        then doing (write_log info (display_name ++ codes " uninstalled"))
        else doing
            (write_log info (codes "Unable to uninstall - " ++ show_nat (last_error s.world)))
    closing close_service_handle h

  unfoldable pub service_uninstall : ℕ → AgentCmd W (Unit {0})
  unfolding remove_service
  service_uninstall fuel = do
    manager ← opening open_manager
    s ← get
    elim manager [
      | none ↦ doing (
          write_log error
            (codes "OpenSCManagerA failed with ErrorCode " ++ show_nat (last_error s.world)))
      | some m ↦ (do
        service ← opening (open_service m)
        s ← get
        elim service [
          | none ↦ doing (
              write_log error
                (codes "OpenServiceA failed with ErrorCode " ++ show_nat (last_error s.world)))
          | some h ↦ remove_service fuel h
        ]
        closing close_service_handle m)
    ]
