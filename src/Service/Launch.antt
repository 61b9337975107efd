-- ===== src/Service/Launch.antt =====
-- `LaunchAppInSession` and `Run` of vTopGuestAgent/main.cpp.
pub mod Handles
pub mod Statics
use winservice.Base.{
  ℕ, ◌+◌, ◌==◌, Bool, true, false, Text, codes, ◌++◌, ◌∷◌, Option, none, some, if◌then◌else◌, Cmd,
  ok, pure, get, modify, ◌>>=◌, ◌>>◌,
}
use winservice.Base.Decimal.{show_nat, show_hex}
use winservice.Service.Env.{Level, info, warn, error, ServiceEnv}
use winservice.Service.State.{Agent, AgentCmd, opening, closing, calling, doing, plus}

-- `NORMAL_PRIORITY_CLASS | CREATE_NEW_CONSOLE`, and the same with `CREATE_UNICODE_ENVIRONMENT`.
abbrev pub console_flags : ℕ
console_flags = 0x30

abbrev pub unicode_flags : ℕ
unicode_flags = 0x430

module _ {W : Type 0} (env : ServiceEnv W) where
  open env use {
    write_log, last_error, close_handle, active_session, query_user_token, open_process_token,
    lookup_privilege, duplicate_token, set_token_session, adjust_privileges, create_environment,
    create_process, create_process_as_user, wait,
  }

  -- `WarnLog` with `GetLastError()` at its end, in the format `print`.
  abbrev pub warn_error : (ℕ → Text) → Text → AgentCmd W (Unit {0})
  warn_error print message = do
    s ← get
    doing (write_log warn (message ++ print (last_error s.world)))

  -- A process that was created has two handles.
  abbrev pub started : (W → Option (ℕ × ℕ) × W) → AgentCmd W (Option (ℕ × ℕ))
  started call s =
      let r = call s.world in
      ok r.0 (record s {
        handles = elim r.0 [ none ↦ s.handles | some p ↦ plus p.1 (plus p.0 s.handles) ];
        world = r.1;
      })

  -- `if (NULL != h) CloseHandle(h)`
  abbrev pub close_if : Option ℕ → AgentCmd W (Unit {0})
  close_if none = pure tt
  close_if (some h) = closing close_handle h

  -- `CreateEnvironmentBlock` and `CreateProcessAsUserA`.
  unfoldable pub start_as_user : Text → ℕ → AgentCmd W (Unit {0})
  start_as_user command dup = do
    block ← calling (create_environment dup)
    modify (λ s. record s {
      environments = elim block [ none ↦ s.environments | some b ↦ plus b s.environments ];
    })
    let flags : ℕ = elim block [ none ↦ console_flags | some _ ↦ unicode_flags ]
    process ← started (create_process_as_user dup command flags block)
    elim process [
      | none ↦ warn_error show_hex (codes " CreateProcessAsUser " ++ (command ++ codes " error, "))
      | some _ ↦ doing (
          write_log info
            (codes "LaunchAppInSession CreateProcessAsUser " ++ (command ++ codes " Success")))
    ]

  -- The calls on the duplicated token.
  unfoldable pub launch_with_token : Text → ℕ → ℕ → ℕ → AgentCmd W (Unit {0})
  unfolding start_as_user
  launch_with_token command session luid dup = do
    set ← calling (set_token_session dup session)
    if set
        then (do
          adjusted ← calling (adjust_privileges dup luid)
          if adjusted
              then start_as_user command dup
              else warn_error show_hex (codes "LaunchAppInSession AdjustTokenPrivileges error, "))
        else warn_error show_hex (codes "LaunchAppInSession SetTokenInformation error, ")

  -- The body of the `do … while (0)` from `DuplicateTokenEx` on: the duplicated token.
  unfoldable pub duplicate_and_launch : Text → ℕ → ℕ → ℕ → AgentCmd W (Option ℕ)
  unfolding launch_with_token
  duplicate_and_launch command session luid token = do
    dup ← opening (duplicate_token token)
    elim dup [
      | none ↦ (do
        warn_error show_hex (codes "LaunchAppInSession DuplicateTokenEx error, ")
        pure none)
      | some d ↦ (do launch_with_token command session luid d; pure (some d))
    ]

  -- The body of the `do … while (0)`, given the token of the own process.
  unfoldable pub launch_with_process_token : Text → ℕ → Option ℕ → AgentCmd W (Option ℕ)
  unfolding duplicate_and_launch
  launch_with_process_token command session none = do
    warn_error show_hex (codes "LaunchAppInSession OpenProcessToken error, ")
    pure none
  launch_with_process_token command session (some token) = do
    s ← get
    elim (lookup_privilege s.world) [
      | none ↦ (do
        warn_error show_hex (codes "LaunchAppInSession LookupPrivilegeValue error, ")
        pure none)
      | some luid ↦ duplicate_and_launch command session luid token
    ]

  -- The handles are NULL where they were not obtained.
  unfoldable pub launch_app_in_session : Text → AgentCmd W (Unit {0})
  unfolding launch_with_process_token
  launch_app_in_session command = do
    s ← get
    let session = active_session s.world
    doing
        (write_log info (codes "LaunchAppInSession Session Id " ++ (show_nat session ++ codes "l")))
    user ← opening (query_user_token session)
    token ← opening open_process_token
    dup ← launch_with_process_token command session token
    close_if user
    close_if dup
    close_if token

  -- One `CreateProcessA` of `Run`: the child is awaited for five seconds and both handles are closed.
  unfoldable pub run_tool : Text → Text → AgentCmd W (Unit {0})
  run_tool command message = do
    process ← started (create_process command)
    elim process [
      | none ↦ warn_error show_nat message
      | some p ↦ (do
        doing (wait (some p.0) (some 5000))
        closing close_handle p.0
        closing close_handle p.1)
    ]

  unfoldable pub run : AgentCmd W (Unit {0})
  unfolding run_tool
  run = do
    doing (write_log info (codes "Run Guest agent main loop starting"))
    run_tool (codes "\"wmiadap\" /f") (codes "XenSvc: Unable to refresh WMI ADAP: ")
    run_tool (codes "\"diskperf\" -y") (codes "XenSvc: Cannot enable disk perf counters: ")
