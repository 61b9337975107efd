-- ===== src/Minidump/Env.antt =====
-- What Minidump/CMinidump.cpp calls and does not implement, and the addresses of its functions. `W`
-- is the world that the calls read and change; a pointer is a number, and `none` NULL.
use winservice.Base.{ℕ, Bool, Text, Option, List}

pub record DumpEnv (W : Type 0) : Type 0 where
  -- The addresses of `InvalidParameterHandler`, `PureCallHandler`, `UnhandledExceptionFilterEx` and
  -- `TempSetUnhandledExceptionFilter`.
  pub invalid_parameter_handler : ℕ
  pub pure_call_handler : ℕ
  pub exception_filter : ℕ
  pub temp_set_filter : ℕ
  -- Each returns the function that was set before.
  pub set_invalid_parameter : Option ℕ → W → Option ℕ × W
  pub set_purecall : Option ℕ → W → Option ℕ × W
  pub set_filter : ℕ → W → Option ℕ × W
  -- `LoadLibrary(L"kernel32.dll")` and `GetProcAddress` of `SetUnhandledExceptionFilter`
  pub load_kernel32 : W → Option ℕ × W
  pub filter_entry : ℕ → W → Option ℕ
  -- `VirtualProtect`: the address, the size and the flag, and the flag before.
  pub protect : ℕ → ℕ → ℕ → W → ℕ × W
  pub write_memory : ℕ → List ℕ → W → Bool × W
  -- `GetModuleFileNameA`, the name from `_splitpath_s`, and `PathRemoveFileSpecA`
  pub module_path : W → Text
  pub split_name : Text → Text
  pub remove_file_spec : Text → Text
  pub create_file : Text → W → Option ℕ × W
  pub write_dump : ℕ → W → Bool × W
  pub close_handle : ℕ → W → W
  -- The address of a new object.
  pub allocate : W → ℕ × W
  -- The program's logging function, called with a format and the argument list as one argument.
  pub call_log : ℕ → (format : Text) → (list : ℕ) → W → W
