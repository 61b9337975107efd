-- ===== src/Log/Config/Mode.antt =====
-- What reading the configuration leaves: it loads nothing, sets no handler and leaves the critical
-- section as it entered it.
use winservice.Base.{
  ℕ, ◌+◌, ◌⊎◌, inl, inr, Bool, ℤ, Bool-cases, Option-cases, Text, Buffer, codes, Option, none, some,
  List, [], ◌∷◌, ◌++◌, replicate, memcpy_s, tokens, ◌>>=◌, Run, and_then, Outcome, Outcome-bind,
  arith,
}
use winservice.Log.Env.{LogEnv}
use winservice.Log.State.{Handler, Globals, LogCmd, max_path, backslash, read_string, or_abort}
use winservice.Log.Write.{warn_log}
use winservice.Log.Write.Mutex.{InMode, log_message-Released}
use winservice.Log.Directory.{refusal_text, enter_dir, make_dirs, create_deep_directory}
use winservice.Log.Config.{
  get_config_path, find_named, find_setting, setting_text, get_log_size, get_log_name, get_log_num,
  get_log_dir, get_log_current_index, read_settings, init_log_configure,
}

module _ {W D E : Type 0} (env : LogEnv W D E) (i : Bool) (l : Option Handler) (n : ℕ) where
  abbrev Mode : Globals W → Type 0
  Mode u = InMode i l n u

  -- Where the process ends: within a message, or not.
  abbrev pub Stopped : Globals W → Type 0
  Stopped u = InMode i l n u ⊎ InMode i l (n + 1) u

  abbrev pub Kept : {A : Type 0} → Run (Globals W) A → Type 0
  Kept run = Outcome (λ _. Mode) Stopped run

  Kept-bind :
      {A B : Type 0} (run : Run (Globals W) A) (f : A → LogCmd W B)
      → Kept run
      → ((a : A) (u : Globals W) → Mode u → Kept (f a u))
      → Kept (and_then run f)
  Kept-bind run f kept each = Outcome-bind (λ _. Mode) Stopped (λ _. Mode) run f kept each

  or_abort-Kept : {A : Type 0} (o : Option A) (s : Globals W) → Mode s → Kept (or_abort o s)
  or_abort-Kept none s h = inl h
  or_abort-Kept (some a) s h = h

  read_string-Kept : (b : Buffer) (s : Globals W) → Mode s → Kept (read_string b s)
  read_string-Kept b s h = ground arith

  warn_log-Kept : (message : Text) (s : Globals W) → Mode s → Kept (warn_log env message s)
  unfolding warn_log
  warn_log-Kept message s h =
      ground (arith, log_message-Released env i l n (codes "Warning") message s h)

  enter_dir-Kept : (next : Text) (s : Globals W) → Mode s → Kept (enter_dir env next s)
  unfolding enter_dir
  enter_dir-Kept next s h = elim (Bool-cases (env.path_exists next s.world)) [
    | inl there ↦ rw there h
    | inr missing ↦
        let made = env.create_directory next s.world in
        elim (Bool-cases made.0) [
          | inl done ↦ rw (missing, done) h
          | inr refused ↦
              rw (missing, refused)
                (Kept-bind
                  (warn_log env (refusal_text next (env.last_error made.1))
                    (record s { world = made.1 }))
                  _ (warn_log-Kept _ _ h) λ _ u k. k)
        ]
  ]

  make_dirs-Kept :
      (dir : Text) (parts : List Text) (s : Globals W) → Mode s → Kept (make_dirs env dir parts s)
  unfolding make_dirs
  make_dirs-Kept dir [] s h = h
  make_dirs-Kept dir (token ∷ rest) s h =
      let next = dir ++ (token ++ backslash ∷ []) in
      Kept-bind (enter_dir env next s) _ (enter_dir-Kept next s h) λ (there : Bool) u k.
        elim (Bool-cases there) [ inl e ↦ rw e (make_dirs-Kept next rest u k) | inr e ↦ rw e k ]

  create_deep_directory-Kept :
      (path : Text) (s : Globals W) → Mode s → Kept (create_deep_directory env path s)
  unfolding create_deep_directory
  create_deep_directory-Kept path s h = elim (Bool-cases (env.path_exists path s.world)) [
    | inl there ↦ rw there h
    | inr missing ↦ rw missing (
        Kept-bind (or_abort (memcpy_s max_path path (replicate max_path 0)) s) _
          (or_abort-Kept _ s h)
          λ copy u k.
            Kept-bind (read_string copy u) _ (read_string-Kept copy u k)
              λ directory v j. make_dirs-Kept [] (tokens backslash directory) v j)
  ]

  pub get_config_path-Kept :
      (buf : Option Buffer) (len : ℤ) (s : Globals W)
      → Mode s
      → Kept (get_config_path env buf len s)
  unfolding get_config_path
  get_config_path-Kept none len s h = h
  get_config_path-Kept (some buf) len s h = ground arith

  module _ (d : D) where
    setting_text-Kept : (e : E) (s : Globals W) → Mode s → Kept (setting_text env d e s)
    unfolding setting_text
    setting_text-Kept e s h = or_abort-Kept (env.get_text d e) s h

    -- A getter that stores what it makes of the text of its setting.
    stored-Kept :
        {A : Type 0} (e : E) (rest : Text → LogCmd W A) (s : Globals W)
        → Mode s
        → ((t : Text) (u : Globals W) → Mode u → Kept (rest t u))
        → Kept ((setting_text env d e >>= rest) s)
    stored-Kept e rest s h each =
        Kept-bind (setting_text env d e s) rest (setting_text-Kept e s h) each

    get_log_size-Kept : (root : E) (s : Globals W) → Mode s → Kept (get_log_size env d root s)
    unfolding get_log_size
    get_log_size-Kept root s h = elim (Option-cases (find_setting env d (codes "Size") root)) [
      | inl e ↦ rw (get_log_size, e) h
      | inr (x, e) ↦ rw (get_log_size, e) (stored-Kept x _ s h λ t u k. k)
    ]

    get_log_num-Kept : (root : E) (s : Globals W) → Mode s → Kept (get_log_num env d root s)
    unfolding get_log_num
    get_log_num-Kept root s h = elim (Option-cases (find_setting env d (codes "Num") root)) [
      | inl e ↦ rw (get_log_num, e) h
      | inr (x, e) ↦ rw (get_log_num, e) (stored-Kept x _ s h λ t u k. k)
    ]

    get_log_current_index-Kept :
        (root : E) (s : Globals W) → Mode s → Kept (get_log_current_index env d root s)
    unfolding get_log_current_index
    get_log_current_index-Kept root s h =
        elim (Option-cases (find_setting env d (codes "Index") root)) [
          | inl e ↦ rw (get_log_current_index, e) h
          | inr (x, e) ↦ rw (get_log_current_index, e) (stored-Kept x _ s h λ t u k. k)
        ]

    get_log_name-Kept : (root : E) (s : Globals W) → Mode s → Kept (get_log_name env d root s)
    unfolding get_log_name
    get_log_name-Kept root s h = elim (Option-cases (find_setting env d (codes "Name") root)) [
      | inl e ↦ rw (get_log_name, e) h
      | inr (x, e) ↦
          rw (get_log_name, e)
            (stored-Kept x _ s h λ t u k.
              Kept-bind (or_abort (memcpy_s max_path t u.log_name) u) _ (or_abort-Kept _ u k)
                λ buf v j. j)
    ]

    get_log_dir-Kept : (root : E) (s : Globals W) → Mode s → Kept (get_log_dir env d root s)
    unfolding get_log_dir
    get_log_dir-Kept root s h = elim (Option-cases (find_setting env d (codes "Dir") root)) [
      | inl e ↦ rw (get_log_dir, e) h
      | inr (x, e) ↦ elim (Option-cases (env.get_text d x)) [
        | inl c ↦ rw (get_log_dir, e, c) h
        | inr (t, c) ↦
            rw (get_log_dir, e, c)
              (Kept-bind (or_abort (memcpy_s max_path t s.log_dir) s) _ (or_abort-Kept _ s h)
                λ buf u k.
                  Kept-bind (read_string buf (record u { log_dir = buf })) _
                    (read_string-Kept buf (record u { log_dir = buf }) k)
                    λ path v j.
                      Kept-bind (create_deep_directory env path v) _
                        (create_deep_directory-Kept path v j) λ made x y. y)
      ]
    ]

    -- The settings in the order in which they are read.
    read_settings-Kept : (e : Option E) (s : Globals W) → Mode s → Kept (read_settings env d e s)
    unfolding read_settings
    read_settings-Kept none s h = h
    read_settings-Kept (some e) s h =
        Kept-bind (get_log_size env d e s) _ (get_log_size-Kept e s h) λ _ s1 h1.
          Kept-bind (get_log_num env d e s1) _ (get_log_num-Kept e s1 h1) λ _ s2 h2.
            Kept-bind (get_log_dir env d e s2) _ (get_log_dir-Kept e s2 h2) λ _ s3 h3.
              Kept-bind (get_log_current_index env d e s3) _ (get_log_current_index-Kept e s3 h3)
                λ _ s4 h4.
                  Kept-bind (get_log_name env d e s4) _ (get_log_name-Kept e s4 h4) λ _ s5 h5. h5

  pub init_log_configure-Kept :
      (config : Buffer) (name : Text) (s : Globals W)
      → Mode s
      → Kept (init_log_configure env config name s)
  unfolding init_log_configure
  init_log_configure-Kept config name s h =
      Kept-bind (read_string config s) _ (read_string-Kept config s h) λ path u k.
        let made = env.new_document path u.world in
        let v : Globals W = record u { live = made.0 ∷ u.live; world = made.1 } in
        elim (Option-cases (env.load_file path made.1)) [
          | inl e ↦ rw (init_log_configure, e) k
          | inr (d, e) ↦ elim (Option-cases (env.root_element d)) [
            | inl c ↦ rw (init_log_configure, e, c) (inl k)
            | inr (root, c) ↦
                let found : Option E = find_named env d name (env.child_elements d root) in
                rw (init_log_configure, e, c)
                  (Kept-bind (read_settings env d found v) _ (read_settings-Kept d found v k)
                    λ _ w j. j)
          ]
        ]
