-- ===== src/Installer/Env.antt =====
-- What InstallDriver/main.cpp calls and does not implement, with its state. `W` is the world that the
-- calls read and change. A handle is a number, and `none` a NULL handle; a string that may be NULL
-- is an option.
use winservice.Base.{ℕ, Bool, Text, Option, List, ok, Cmd, minus, holding}

-- What `CreateServiceA` and `ChangeServiceConfigA` are given.
pub record ServiceConfig : Type 0 where
  pub display_name : Text
  pub service_type : ℕ
  pub start_type : ℕ
  pub error_control : ℕ
  pub binary : Option Text

-- `SC_ACTION`: its type and its delay in milliseconds.
pub record Action : Type 0 where
  pub action_type : ℕ
  pub delay : ℕ

-- `SERVICE_FAILURE_ACTIONSA`
pub record FailureActions : Type 0 where
  pub reset_period : ℕ
  pub reboot_message : Option Text
  pub command : Option Text
  pub actions : List Action

pub record InstallEnv (W : Type 0) : Type 0 where
  pub printf : Text → W → W
  pub last_error : W → ℕ
  -- `lstrcmpiA(s, t) == 0`
  pub same_ignoring_case : Text → Text → Bool
  pub open_manager : W → Option ℕ × W
  pub open_service : ℕ → Text → W → Option ℕ × W
  pub create_service : ℕ → Text → ServiceConfig → W → Option ℕ × W
  pub start_service : ℕ → W → W
  pub change_config : ℕ → ServiceConfig → W → Bool × W
  -- `ChangeServiceConfig2A` with each of its three kinds of information.
  pub set_description : ℕ → Text → W → Bool × W
  pub set_failure_actions : ℕ → FailureActions → W → Bool × W
  pub set_failure_flag : ℕ → Bool → W → Bool × W
  pub close_service_handle : ℕ → W → W

pub record Installing (W : Type 0) : Type 0 where
  pub handles : ℕ → ℕ
  pub world : W

abbrev pub InstallCmd : Type 0 → Type 0 → Type 0
InstallCmd W A = Cmd (Installing W) A

module _ {W : Type 0} where
  -- A call that returns a handle, which is then open.
  abbrev pub opening : (W → Option ℕ × W) → InstallCmd W (Option ℕ)
  opening call s =
      let r = call s.world in ok r.0 (record { handles = holding r.0 s.handles; world = r.1 })

  -- A call that closes a handle.
  abbrev pub closing : (ℕ → W → W) → ℕ → InstallCmd W (Unit {0})
  closing call h s = ok tt (record { handles = minus h s.handles; world = call h s.world })

  -- A call that returns a value, and one that returns nothing.
  abbrev pub calling : {A : Type 0} → (W → A × W) → InstallCmd W A
  calling call s = let r = call s.world in ok r.0 (record s { world = r.1 })

  abbrev pub doing : (W → W) → InstallCmd W (Unit {0})
  doing call s = ok tt (record s { world = call s.world })
