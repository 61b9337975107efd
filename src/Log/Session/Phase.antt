-- ===== src/Log/Session/Phase.antt =====
-- The library not loaded, or loaded with its critical section free, over sequences of its calls.
use winservice.Base.{
  c_string, Option-cases, ok, crash, ◌≡◌, ◌⊎◌, refl, inl, inr, true, false, Text, Option, none,
  some, List, [], ◌∷◌, Run, Outcome, Outcome-bind, arith,
}
use winservice.Log.Env.{LogEnv}
use winservice.Log.State.{mutex_lock, read_string, Handler, Globals}
use winservice.Log.Write.{log_message, debug_log, info_log, warn_log, error_log, global_test}
use winservice.Log.Write.Mutex.{log_message-Released}
use winservice.Log.Module.{load_log_module, unload_log_module}
use winservice.Log.Module.Load.{load_log_module-Loaded, load_log_module-again}
use winservice.Log.Session.{
  LogCall, load_call, unload_call, test_call, debug_call, info_call, warn_call, error_call,
  log_call, run_log_calls,
}

-- Before the first load: no log function, and a critical section that is not initialized.
abbrev Unloaded : {W : Type 0} → Globals W → Type 0
Unloaded u = (u.initialized ≡ false) × (u.log ≡ none) × (u.mutex ≡ none)

abbrev Free : {W : Type 0} → Globals W → Type 0
Free u = (u.initialized ≡ true) × (u.mutex ≡ some 0)

abbrev pub Idle : {W : Type 0} → Globals W → Type 0
Idle u = Unloaded u ⊎ Free u

-- A process that ends within a call.
abbrev pub Halted : {W : Type 0} → Globals W → Type 0
Halted u = (u.mutex ≡ none) ⊎ (u.mutex ≡ some 0) ⊎ (u.mutex ≡ some 1)

module _ {W D E : Type 0} (env : LogEnv W D E) where
  abbrev Steady : {A : Type 0} → Run (Globals W) A → Type 0
  Steady run = Outcome (λ _. Idle) Halted run

  load_log_module-Steady :
      (name : Text) (f : Option Handler) (s : Globals W)
      → Idle s
      → Steady (load_log_module env name f s)
  load_log_module-Steady name f s (inl (fresh, e, h)) =
      ground (arith, load_log_module-Loaded env s.log name f s fresh refl)
  load_log_module-Steady name f s (inr (old, h)) =
      rw (load_log_module-again env s.log name f s old) (inr (old, h))

  log_message-Steady :
      (prefix message : Text) (s : Globals W) → Idle s → Steady (log_message env prefix message s)
  unfolding log_message
  log_message-Steady prefix message s (inl (fresh, e, h)) =
      simp (log_message, e) (inl (fresh, refl, h))
  log_message-Steady prefix message s (inr (old, h)) =
      ground (arith, log_message-Released env true s.log 0 prefix message s (old, refl, h))

  unload_log_module-Steady : (s : Globals W) → Idle s → Steady (unload_log_module env s)
  unfolding unload_log_module
  unload_log_module-Steady s (inl (fresh, e, h)) = rw h (inl refl)
  unload_log_module-Steady s (inr (old, h)) =
      let v : Globals W = record s { mutex = some 1 } in
      let locked : mutex_lock s ≡ ok tt v = simp (mutex_lock, h) in
      elim (Option-cases (c_string s.config_path)) [
        | inl e ↦
            let unread : read_string s.config_path v ≡ crash v = simp (read_string, e) in
            simp (unload_log_module, locked, unread) (inr (inr refl))
        | inr (path, e) ↦
            let read : read_string s.config_path v ≡ ok path v = simp (read_string, e) in
            elim (Option-cases (env.load_file path (env.new_document path s.world).1)) [
              | inl l ↦ simp (unload_log_module, locked, read, l) (inr (old, refl))
              | inr (d, l) ↦ elim (Option-cases (env.root_element d)) [
                | inl c ↦ simp (unload_log_module, locked, read, l, c) (inr (inr refl))
                | inr (root, c) ↦ simp (unload_log_module, locked, read, l, c) (inr (old, refl))
              ]
            ]
      ]

  log_call-Steady : (call : LogCall) (s : Globals W) → Idle s → Steady (log_call env call s)
  unfolding log_call debug_log info_log warn_log error_log global_test
  log_call-Steady (load_call name f) s h =
      Outcome-bind (λ _. Idle) Halted (λ _. Idle) (load_log_module env name f s) _
        (load_log_module-Steady name f s h) λ _ u k. k
  log_call-Steady unload_call s h =
      Outcome-bind (λ _. Idle) Halted (λ _. Idle) (unload_log_module env s) _
        (unload_log_module-Steady s h) λ _ u k. k
  log_call-Steady test_call s h = h
  log_call-Steady (debug_call message) s h = log_message-Steady _ message s h
  log_call-Steady (info_call message) s h = log_message-Steady _ message s h
  log_call-Steady (warn_call message) s h = log_message-Steady _ message s h
  log_call-Steady (error_call message) s h = log_message-Steady _ message s h

  -- From the statics that a process starts with, or any state of these two, however often, in
  -- whatever order and with whatever results the exported functions are called: the library is not
  -- loaded (no log function, critical section not initialized), or it is and its critical section
  -- is free. Where a call ends the process, the critical section is not initialized, free, or
  -- entered once.
  pub run_log_calls-Idle :
      (calls : List LogCall) (s : Globals W)
      → Idle s
      → Outcome (λ _. Idle) Halted (run_log_calls env calls s)
  unfolding run_log_calls
  run_log_calls-Idle [] s h = h
  run_log_calls-Idle (call ∷ calls) s h =
      Outcome-bind (λ _. Idle) Halted (λ _. Idle) (log_call env call s) _ (log_call-Steady call s h)
        λ _ u k. run_log_calls-Idle calls u k
