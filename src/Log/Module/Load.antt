-- ===== src/Log/Module/Load.antt =====
-- What `LoadLogModule` leaves on each of its returns.
use winservice.Base.{
  ℕ, ◌≡◌, ◌==◌, ◌⊎◌, refl, inl, inr, true, false, not, Bool-cases, pos, Text, Option, none, some,
  ok, if◌then◌else◌, pure, ◌>>◌, Outcome, Outcome-bind,
}
use winservice.Log.Env.{LogEnv}
use winservice.Log.State.{Handler, def_log, Globals, LogCmd, max_path}
use winservice.Log.Write.{set_log_func}
use winservice.Log.Write.Mutex.{InMode}
use winservice.Log.Config.{get_config_path, init_log_configure}
use winservice.Log.Config.Mode.{Stopped, get_config_path-Kept, init_log_configure-Kept}
use winservice.Log.Module.{load_log_module}

-- The log function that a load sets.
abbrev pub handler_of : Option Handler → Handler
handler_of none = def_log
handler_of (some f) = f

-- It is marked as loaded and its section is free; the result 0 comes with a log function, the
-- result 1 with the one from before.
abbrev pub Loaded : {W : Type 0} → Option Handler → Option Handler → ℕ → Globals W → Type 0
Loaded f l code u =
    (u.initialized ≡ true)
    × (u.mutex ≡ some 0)
    × (((code ≡ 0) × (u.log ≡ some (handler_of f))) ⊎ ((code ≡ 1) × (u.log ≡ l)))

module _ {W D E : Type 0} (env : LogEnv W D E) (l : Option Handler) where
  abbrev Ready : Globals W → Type 0
  Ready u = InMode true l 0 u

  abbrev Ended : Globals W → Type 0
  Ended u = Stopped env true l 0 u

  set_log_func-Loaded :
      (f : Option Handler) (s : Globals W)
      → Ready s
      → Outcome (Loaded f l) Ended ((set_log_func f >> pure {A = ℕ} 0) s)
  unfolding set_log_func
  set_log_func-Loaded none s h = (h.0, h.2, inl (refl, refl))
  set_log_func-Loaded (some g) s h = (h.0, h.2, inl (refl, refl))

  -- The end of a load, behind a step that failed or not.
  settled-Loaded :
      (f : Option Handler) (failed : ℕ) (rest : LogCmd W ℕ) (s : Globals W)
      → Ready s
      → Outcome (Loaded f l) Ended (rest s)
      → Outcome (Loaded f l) Ended ((if not (failed == 0) then pure 1 else rest) s)
  settled-Loaded f failed rest s h done = elim (Bool-cases (failed == 0)) [
    | inl zero ↦ rw zero done
    | inr other ↦ rw other (h.0, h.2, inr (refl, h.1))
  ]

  pub load_log_module-Loaded :
      (name : Text) (f : Option Handler) (s : Globals W)
      → s.initialized ≡ false
      → s.log ≡ l
      → Outcome (Loaded f l) Ended (load_log_module env name f s)
  unfolding load_log_module
  load_log_module-Loaded name f s fresh same =
      let started : Globals W = record s { initialized = true; mutex = some 0 } in
      rw fresh (
        Outcome-bind (λ _. Ready) Ended (Loaded f l)
          (get_config_path env (some s.config_path) (pos max_path) started) _
          (get_config_path-Kept env true l 0 (some s.config_path) (pos max_path) started
            (refl, same, refl))
          λ found t h.
            let u : Globals W = record t {
              config_path = elim found.1 [ none ↦ t.config_path | some b ↦ b ];
            } in
            settled-Loaded f found.0 _ u h (
              Outcome-bind (λ _. Ready) Ended (Loaded f l)
                (init_log_configure env u.config_path name u) _
                (init_log_configure-Kept env true l 0 u.config_path name u h)
                λ failed v k. settled-Loaded f failed _ v k (set_log_func-Loaded f v k)))

  pub load_log_module-again :
      (name : Text) (f : Option Handler) (s : Globals W)
      → s.initialized ≡ true
      → load_log_module env name f s ≡ ok 2 s
  unfolding load_log_module
  load_log_module-again name f s old = simp (load_log_module, old)
