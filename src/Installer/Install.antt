-- ===== src/Installer/Install.antt =====
-- `ServiceInstall` and `main` of InstallDriver/main.cpp.
use winservice.Base.{
  ℕ, ◌*◌, true, Text, codes, ◌++◌, Option, none, some, List, [], ◌∷◌, if◌then◌else◌, pure, get,
  ◌>>=◌, ◌>>◌,
}
use winservice.Base.Decimal.{show_nat}
use winservice.Installer.Env.{
  ServiceConfig, Action, FailureActions, InstallEnv, InstallCmd, opening, closing, calling, doing,
}

abbrev pub svc_name : Text
svc_name = codes "vTopSrv"

abbrev pub svc_display_name : Text
svc_display_name = codes "Halsign Tools for Virtual Machines Service"

abbrev pub svc_desc : Text
svc_desc = codes "Monitors and provides various metrics to XenStore"

-- `SERVICE_WIN32_OWN_PROCESS | SERVICE_INTERACTIVE_PROCESS`, `SERVICE_AUTO_START` and
-- `SERVICE_ERROR_NORMAL`.
abbrev pub config_of : Option Text → ServiceConfig
config_of binary = record {
  display_name = svc_display_name;
  service_type = 0x110;
  start_type = 2;
  error_control = 1;
  binary = binary;
}

-- `SC_ACTION_RESTART` after so many minutes.
abbrev pub restart_after : ℕ → Action
restart_after minutes = record { action_type = 1; delay = minutes * 60 * 1000 }

abbrev pub failure_actions : FailureActions
failure_actions = record {
  reset_period = 3600;
  reboot_message = none;
  command = none;
  actions = restart_after 4 ∷ restart_after 8 ∷ restart_after 12 ∷ [];
}

-- `%s` of a string that may be NULL.
abbrev pub text_of : Option Text → Text
text_of none = codes "(null)"
text_of (some t) = t

-- What there is behind the creation or the update: no service, one whose update failed, or one that
-- is to be configured.
pub data Obtained : Type 0 where
  missing : Obtained
  stale ready : ℕ → Obtained

module _ {W : Type 0} (env : InstallEnv W) where
  open env use {
    printf, last_error, same_ignoring_case, open_manager, open_service, create_service,
    start_service, change_config, set_description, set_failure_actions, set_failure_flag,
    close_service_handle,
  }

  -- `printf("… %d\n", GetLastError())`
  abbrev pub print_error : Text → InstallCmd W (Unit {0})
  print_error message = do
    s ← get
    doing (printf (message ++ (show_nat (last_error s.world) ++ codes "\n")))

  unfoldable pub create_or_update : ℕ → Option Text → Option ℕ → InstallCmd W Obtained
  create_or_update m binary none = do
    made ← opening (create_service m svc_name (config_of binary))
    elim made [
      | none ↦ (do print_error (codes "Failed to install the service "); pure missing)
      | some h ↦ (do doing (start_service h); pure (ready h))
    ]
  create_or_update m binary (some h) = do
    changed ← calling (change_config h (config_of binary))
    if changed
        then pure (ready h)
        else (do print_error (codes "Failed to update the servic "); pure (stale h))

  unfoldable pub configure : ℕ → InstallCmd W (Unit {0})
  configure h = do
    described ← calling (set_description h svc_desc)
    if described then pure tt else print_error (codes "Failed to SERVICE_CONFIG_DESCRIPTION ")
    acting ← calling (set_failure_actions h failure_actions)
    if acting then pure tt else print_error (codes "Failed to SERVICE_CONFIG_FAILURE_ACTIONS ")
    calling (set_failure_flag h true)
    pure tt

  -- The configuration, where there is a service to configure, and the closing of its handle.
  unfoldable pub finish_service : Obtained → InstallCmd W (Unit {0})
  unfolding configure
  finish_service missing = pure tt
  finish_service (stale h) = closing close_service_handle h
  finish_service (ready h) = do configure h; closing close_service_handle h

  unfoldable pub service_install : Option Text → InstallCmd W ℕ
  unfolding create_or_update finish_service
  service_install binary = do
    manager ← opening open_manager
    elim manager [
      | none ↦ (do print_error (codes "OpenSCManagerA failed "); pure 0)
      | some m ↦ (do
        doing (printf (text_of binary ++ codes "\n"))
        found ← opening (open_service m svc_name)
        obtained ← create_or_update m binary found
        finish_service obtained
        closing close_service_handle m
        pure 0)
    ]

  -- The arguments behind the program's name; a missing `argv[2]` is NULL.
  unfoldable pub main : List Text → InstallCmd W ℕ
  unfolding service_install
  main [] = do doing (printf (codes "Invalid number of parameters passed in")); pure 1
  main (flag ∷ rest) =
      if same_ignoring_case flag (codes "/s")
      then service_install (elim rest [ [] ↦ none | path ∷ _ ↦ some path ])
      else (do doing (printf (codes "Invalid device install type passed in")); pure 1)
