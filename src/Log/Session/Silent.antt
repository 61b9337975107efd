-- ===== src/Log/Session/Silent.antt =====
-- A first load that fails: later loads and messages do nothing.
use winservice.Base.{
  ◌≡◌, refl, Bool, true, false, Text, Option, none, List, [], ◌∷◌, ok, Outcome-ok, arith, ◌&&◌,
}
use winservice.Log.Env.{LogEnv}
use winservice.Log.State.{Handler, Globals}
use winservice.Log.Write.{log_message, debug_log, info_log, warn_log, error_log}
use winservice.Log.Module.{load_log_module}
use winservice.Log.Config.Mode.{Stopped}
use winservice.Log.Module.Load.{Loaded, load_log_module-Loaded, load_log_module-again}
use winservice.Log.Session.{
  LogCall, load_call, unload_call, test_call, debug_call, info_call, warn_call, error_call,
  log_call, run_log_calls,
}

-- A load or a message.
abbrev pub is_logging : LogCall → Bool
is_logging (load_call _ _) = true
is_logging unload_call = false
is_logging test_call = false
is_logging (debug_call _) = true
is_logging (info_call _) = true
is_logging (warn_call _) = true
is_logging (error_call _) = true

abbrev pub all_logging : List LogCall → Bool
all_logging [] = true
all_logging (call ∷ calls) = is_logging call && all_logging calls

module _ {W D E : Type 0} (env : LogEnv W D E) where
  log_call-silent :
      (call : LogCall) (u : Globals W)
      → u.initialized ≡ true
      → u.log ≡ none
      → is_logging call ≡ true
      → log_call env call u ≡ ok tt u
  unfolding log_call load_log_module debug_log info_log warn_log error_log log_message
  log_call-silent (load_call name f) u old e l =
      rw (load_log_module-again env none name f u old) refl
  log_call-silent unload_call u old e l = grind arith
  log_call-silent test_call u old e l = grind arith
  log_call-silent (debug_call message) u old e l = simp (log_message, e)
  log_call-silent (info_call message) u old e l = simp (log_message, e)
  log_call-silent (warn_call message) u old e l = simp (log_message, e)
  log_call-silent (error_call message) u old e l = simp (log_message, e)

  run_log_calls-silent :
      (calls : List LogCall) (u : Globals W)
      → u.initialized ≡ true
      → u.log ≡ none
      → all_logging calls ≡ true
      → run_log_calls env calls u ≡ ok tt u
  unfolding run_log_calls
  run_log_calls-silent [] u old e l = refl
  run_log_calls-silent (call ∷ calls) u old e l =
      rw (log_call-silent call u old e (grind arith))
        (run_log_calls-silent calls u old e (grind arith))

  -- Where the first load, with no log function set before, returns 1: every sequence of further
  -- loads and messages leaves the state as it is, and each further load returns 2.
  pub load_log_module-silent :
      (name name' : Text) (f f' : Option Handler) (calls : List LogCall) (s u : Globals W)
      → s.initialized ≡ false
      → s.log ≡ none
      → load_log_module env name f s ≡ ok 1 u
      → all_logging calls ≡ true
      → (run_log_calls env calls u ≡ ok tt u) × (load_log_module env name' f' u ≡ ok 2 u)
  load_log_module-silent name name' f f' calls s u fresh l failed logging =
      let after =
        Outcome-ok (Loaded f none) (Stopped env true none 0) failed
          (load_log_module-Loaded env none name f s fresh l) in
      let (old, _, set) = after in
      let e : u.log ≡ none = grind arith in
      (run_log_calls-silent calls u old e logging, load_log_module-again env none name' f' u old)
