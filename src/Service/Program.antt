-- ===== src/Service/Program.antt =====
-- `main` of vTopGuestAgent/main.cpp.
use winservice.Base.{
  ℕ, ◌==◌, not, Text, codes, ◌++◌, List, [], ◌∷◌, if◌then◌else◌, pure, get, ◌>>=◌, ◌>>◌,
}
use winservice.Base.Decimal.{show_nat}
use winservice.Service.Env.{info, warn, error, ServiceEnv}
use winservice.Service.State.{AgentCmd, calling, doing}
use winservice.Service.Uninstall.{service_uninstall}

-- `ERROR_FAILED_SERVICE_CONTROLLER_CONNECT`
abbrev pub controller_connect : ℕ
controller_connect = 1063

module _ {W : Type 0} (env : ServiceEnv W) where
  open env use {write_log, load_log, unload_log, last_error, start_dispatcher, same_ignoring_case}

  -- The dispatcher runs `ServiceMain` and the control handler until the service has stopped.
  unfoldable pub dispatch : AgentCmd W (Unit {0})
  dispatch = do
    served ← calling start_dispatcher
    s ← get
    let code = last_error s.world
    if served
        then doing (write_log error (codes " service is shut down"))
        else (if code == controller_connect
            then doing (
                write_log error
                  (codes "XenSvc: unable to start ctrl dispatcher - " ++ show_nat code))
            else pure tt)

  -- The arguments behind the program's name, and the fuel of the uninstallation.
  unfoldable pub main : ℕ → List Text → AgentCmd W (Unit {0})
  unfolding dispatch
  main fuel args = do
    failed ← calling (load_log (codes "vTopGuestAgent"))
    if not (failed == 0) then pure tt else do
      doing (write_log info (codes "main begin"))
      elim args [
        | [] ↦ dispatch
        | flag ∷ _ ↦
            (if same_ignoring_case flag (codes "-u")
              then service_uninstall env fuel
              else doing (write_log warn (codes "Invalid input parameters")))
      ]
      doing (write_log info (codes "main end"))
      calling unload_log
      pure tt
