-- ===== src/Service/Env.antt =====
-- What vTopGuestAgent/main.cpp calls and does not implement: the Windows API, and the functions of
-- the logging library where they return. `W` is the world that those calls read and change; the
-- state of the logging library is a part of it. A handle is a number, and `none` a NULL handle.
use winservice.Base.{ℕ, Bool, Text, Option}

-- `SERVICE_STATUS`
pub record Status : Type 0 where
  pub service_type : ℕ
  pub current_state : ℕ
  pub controls_accepted : ℕ
  pub win32_exit_code : ℕ
  pub service_specific_exit_code : ℕ
  pub check_point : ℕ
  pub wait_hint : ℕ

pub data Level : Type 0 where
  info warn error : Level

pub record ServiceEnv (W : Type 0) : Type 0 where
  pub write_log : Level → Text → W → W
  pub load_log : Text → W → ℕ × W
  pub unload_log : W → ℕ × W
  pub last_error : W → ℕ
  -- `lstrcmpiA(s, t) == 0`
  pub same_ignoring_case : Text → Text → Bool
  -- `StartServiceCtrlDispatcherA`
  pub start_dispatcher : W → Bool × W
  pub open_manager : W → Option ℕ × W
  pub open_service : ℕ → W → Option ℕ × W
  -- `ControlService(…, SERVICE_CONTROL_STOP, …)` and `QueryServiceStatus`: the status that is written,
  -- `none` where the call fails.
  pub control_stop : ℕ → W → Option Status × W
  pub query_status : ℕ → W → Option Status × W
  pub sleep : ℕ → W → W
  pub delete_service : ℕ → W → Bool × W
  pub close_service_handle : ℕ → W → W
  pub close_handle : ℕ → W → W
  pub create_event : W → Option ℕ × W
  pub set_event : Option ℕ → W → W
  -- `RegisterServiceCtrlHandlerA`, `none` for a status handle of 0.
  pub register_handler : W → Option ℕ × W
  pub set_service_status : Option ℕ → Status → W → W
  -- `WaitForSingleObject`: the handle and the time in milliseconds, `none` for `INFINITE`.
  pub wait : Option ℕ → Option ℕ → W → W
  pub active_session : W → ℕ
  pub query_user_token : ℕ → W → Option ℕ × W
  pub open_process_token : W → Option ℕ × W
  -- `LookupPrivilegeValue(NULL, SE_DEBUG_NAME, …)`
  pub lookup_privilege : W → Option ℕ
  pub duplicate_token : ℕ → W → Option ℕ × W
  pub set_token_session : ℕ → ℕ → W → Bool × W
  pub adjust_privileges : ℕ → ℕ → W → Bool × W
  pub create_environment : ℕ → W → Option ℕ × W
  -- `CreateProcessA`: the handles of the process and of its thread.
  pub create_process : Text → W → Option (ℕ × ℕ) × W
  -- `CreateProcessAsUserA`: the token, the command, the flags and the environment block.
  pub create_process_as_user : ℕ → Text → ℕ → Option ℕ → W → Option (ℕ × ℕ) × W
