-- ===== src/Log/Session.antt =====
-- The calls that LogModule/LogModule.h exports, and a process that makes them one after the other.
pub mod Phase
pub mod Silent
pub mod Journal
use winservice.Base.{Bool, true, false, ℕ, Text, Option, List, [], ◌∷◌, Cmd, pure, ◌>>◌}
use winservice.Log.Env.{LogEnv}
use winservice.Log.State.{Handler, LogCmd}
use winservice.Log.Write.{debug_log, info_log, warn_log, error_log, global_test}
use winservice.Log.Module.{load_log_module, unload_log_module}

pub data LogCall : Type 0 where
  load_call : Text → Option Handler → LogCall
  unload_call test_call : LogCall
  debug_call info_call warn_call error_call : Text → LogCall

module _ {W D E : Type 0} (env : LogEnv W D E) where
  unfoldable pub log_call : LogCall → LogCmd W (Unit {0})
  log_call (load_call name f) = load_log_module env name f >> pure tt
  log_call unload_call = unload_log_module env >> pure tt
  log_call test_call = global_test env
  log_call (debug_call message) = debug_log env message
  log_call (info_call message) = info_log env message
  log_call (warn_call message) = warn_log env message
  log_call (error_call message) = error_log env message

  unfoldable pub run_log_calls : List LogCall → LogCmd W (Unit {0})
  unfolding log_call
  run_log_calls [] = pure tt
  run_log_calls (call ∷ calls) = do log_call call; run_log_calls calls
