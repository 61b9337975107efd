-- ===== src/Log/Directory/Made.antt =====
-- What `CreateDeepDirectory` has made when it returns.
use winservice.Base.{
  none, codes, Ends-bind, Ends-mono, Ends-run, Outcome-ok, ◌∙◌, ◌<◌, ◌≡◌, refl, ◌⊎◌, inl, inr, Bool,
  true, false, Bool-cases, Text, tokens, length, List, [], ◌∷◌, ◌++◌, All, Ends, Outcome,
  Outcome-mono, Outcome-bind, Outcome-any, ok, pure, ◌>>◌, arith,
}
use winservice.Base.Strings.{NoNul, memcpy_s-fits}
use winservice.Log.Env.{LogEnv}
use winservice.Log.State.{Globals, LogCmd, max_path, backslash}
use winservice.Log.Write.{warn_log, log_message}
use winservice.Log.Directory.{refusal_text, enter_dir, make_dirs, create_deep_directory}

-- The directories on the way: every token and what is before it, each with its backslash.
unfoldable pub levels : Text → List Text → List Text
levels dir [] = []
levels dir (token ∷ rest) = let next = dir ++ (token ++ backslash ∷ []) in next ∷ levels next rest

module _ {W D E : Type 0} (env : LogEnv W D E) where
  open env use {path_exists, create_directory, last_error}

  -- A directory whose creation succeeds exists then, and a creation removes nothing.
  pub record IsFileSystem : Type 0 where
    pub made :
        (p : Text) (w : W)
        → (create_directory p w).0 ≡ true
        → path_exists p (create_directory p w).1 ≡ true
    pub kept :
        (p q : Text) (w : W)
        → path_exists q w ≡ true
        → path_exists q (create_directory p w).1 ≡ true

  abbrev pub Exist : List Text → W → Type 0
  Exist ps w = All (λ p. path_exists p w ≡ true) ps

  -- If the result is TRUE, these directories exist and nothing has gone.
  abbrev Made : List Text → W → Bool → Globals W → Type 0
  Made ps w made u =
      made ≡ true
      → Exist ps u.world × ((q : Text) → path_exists q w ≡ true → path_exists q u.world ≡ true)

  -- A log message, and then FALSE.
  refused :
      (ps : List Text) (w : W) (message : LogCmd W (Unit {0})) (t : Globals W)
      → Outcome (Made ps w) (λ _. Unit) ((message >> pure false) t)
  refused ps w message t =
      Outcome-bind (λ _ _. Unit) (λ _. Unit) (Made ps w) (message t) _ (Outcome-any (message t))
        λ _ u _ yes_made. cc

  module _ (fs : IsFileSystem) where
    enter_dir-Made :
        (next : Text) (s : Globals W)
        → Outcome (Made (next ∷ []) s.world) (λ _. Unit) (enter_dir env next s)
    unfolding enter_dir
    enter_dir-Made next s =
        let w = (create_directory next s.world).1 in
        elim (Bool-cases (path_exists next s.world)) [
          | inl old ↦ rw old (λ _. ((old, tt), λ q e. e))
          | inr new ↦ elim (Bool-cases (create_directory next s.world).0) [
            | inl created ↦
                rw (new, created)
                  (λ _. ((fs.made next s.world created, tt), λ q e. fs.kept next q s.world e))
            | inr failed ↦
                rw (new, failed)
                  (refused (next ∷ []) s.world (warn_log env (refusal_text next (last_error w)))
                    (record s { world = w }))
          ]
        ]

    make_dirs-Made :
        (dir : Text) (tokens : List Text) (s : Globals W)
        → Outcome (Made (levels dir tokens) s.world) (λ _. Unit) (make_dirs env dir tokens s)
    unfolding make_dirs levels
    make_dirs-Made dir [] s = λ _. (tt, λ q e. e)
    make_dirs-Made dir (token ∷ rest) s =
        let next = dir ++ (token ++ backslash ∷ []) in
        let deeper = make_dirs-Made next rest in
        Outcome-bind (Made (next ∷ []) s.world) (λ _. Unit) _ (enter_dir env next s) _
          (enter_dir-Made next s)
          λ there t entered. elim (Bool-cases there) [
            | inl goes_on ↦ rw goes_on (
                Outcome-mono (Made (levels next rest) t.world)
                  (Made (levels dir (token ∷ rest)) s.world) (λ _. Unit) (make_dirs env next rest t)
                  (deeper t)
                  λ made u m yes_made.
                    let below = m yes_made in
                    let here = entered goes_on in
                    ((below.1 next here.0.0, below.0), λ q e. below.1 q (here.1 q e)))
            | inr stops ↦ rw stops (λ yes_made. cc)
          ]

  -- A level that was missing and could not be created, which was the last thing done to the world.
  abbrev pub Refused : List Text → W → Type 0
  Refused [] v = ⊥
  Refused (p ∷ ps) v =
      ((w : W) × (path_exists p w ≡ false)
        × ((create_directory p w).0 ≡ false)
        × (v ≡ (create_directory p w).1))
      ⊎ Refused ps v

  -- The result is TRUE, or it is FALSE and a level was refused; the log function is as before.
  abbrev Answered : List Text → Globals W → Bool → Globals W → Type 0
  Answered ps s made u = (u.log ≡ s.log) × ((made ≡ true) ⊎ ((made ≡ false) × Refused ps u.world))

  enter_dir-Answered :
      (next : Text) (s : Globals W)
      → s.log ≡ none
      → Ends (Answered (next ∷ []) s) (enter_dir env next s)
  unfolding enter_dir warn_log log_message
  enter_dir-Answered next s silent =
      let made = create_directory next s.world in
      elim (Bool-cases (path_exists next s.world)) [
        | inl old ↦ rw old (refl, inl refl)
        | inr new ↦ elim (Bool-cases made.0) [
          | inl created ↦ rw (new, created) (refl, inl refl)
          | inr failed ↦
              let t : Globals W = record s { world = made.1 } in
              let quiet : log_message env (codes "Warning") (refusal_text next (last_error made.1))
                    t
                  ≡ ok tt t =
                simp (log_message, silent) in
              rw (new, failed, quiet) (refl, inr (refl, inl (s.world, new, failed, refl)))
        ]
      ]

  make_dirs-Answered :
      (dir : Text) (tokens : List Text) (s : Globals W)
      → s.log ≡ none
      → Ends (Answered (levels dir tokens) s) (make_dirs env dir tokens s)
  unfolding make_dirs levels
  make_dirs-Answered dir [] s silent = (refl, inl refl)
  make_dirs-Answered dir (token ∷ rest) s silent =
      let next = dir ++ (token ++ backslash ∷ []) in
      Ends-bind (Answered (next ∷ []) s) (Answered (next ∷ levels next rest) s)
        (enter_dir env next s) _ (enter_dir-Answered next s silent)
        λ (there : Bool) t (k : Answered (next ∷ []) s there t). elim (Bool-cases there) [
          | inl goes_on ↦ rw goes_on (
              Ends-mono (make_dirs env next rest t) (make_dirs-Answered next rest t (k.0 ∙ silent))
                λ made u (j : Answered (levels next rest) t made u).
                  (j.0 ∙ k.0, elim j.1 [ inl e ↦ inl e | inr (e, r) ↦ inr (e, inr r) ]))
          | inr stops ↦ rw stops (
            k.0,
            elim k.1 [
              | inl e ↦ absurd (ground (arith, e, stops))
              | inr (e, r) ↦ elim r [
                | inl here ↦ inr (refl, inl here)
                | inr none_left ↦ absurd none_left
              ]
            ],
          )
        ]

  -- For a path that is a terminated string below MAX_PATH bytes, while no log function is set, as in a
  -- first load, and where a created directory exists and a creation removes nothing:
  -- CreateDeepDirectory returns TRUE, and the path was there already or every level of it exists
  -- then; or it returns FALSE, and the last thing done to the world was to try to create a level that
  -- was missing, in vain.
  pub create_deep_directory-makes :
      (path : Text) (s : Globals W)
      → IsFileSystem
      → s.log ≡ none
      → NoNul path
      → length path < max_path
      → Ends
          (λ made u.
            ((made ≡ true)
              × ((path_exists path s.world ≡ true)
                  ⊎ Exist (levels [] (tokens backslash path)) u.world))
            ⊎ ((made ≡ false) × Refused (levels [] (tokens backslash path)) u.world))
          (create_deep_directory env path s)
  unfolding create_deep_directory
  create_deep_directory-makes path s fs silent nul short =
      let ps = levels [] (tokens backslash path) in
      elim (Bool-cases (path_exists path s.world)) [
        | inl old ↦ rw old (inl (refl, inl refl))
        | inr new ↦
            let (buf, copied, string) = memcpy_s-fits path max_path nul short in
            let (made, u, run, (_, answer)) =
              Ends-run (Answered ps s) (make_dirs env [] (tokens backslash path) s)
                (make_dirs-Answered [] (tokens backslash path) s silent) in
            let exist =
              Outcome-ok (Made ps s.world) (λ _. Unit) run
                (make_dirs-Made fs [] (tokens backslash path) s) in
            let ends : create_deep_directory env path s ≡ ok made u =
              ground (arith, new, copied, string, run) in
            rw ends (elim answer [ inl e ↦ inl (e, inr (exist e).0) | inr e ↦ inr e ])
      ]
