-- ===== src/Log/Config.antt =====
-- Reading the configuration in LogModule/LogModule.cpp: `getConfigPath`, `getLogSize`,
-- `getLogName`, `getLogNum`, `getLogDir`, `getLogCurrentIndex` and `initLogConfigure`.
pub mod Search
pub mod Mode
pub mod Settings
pub mod Size
use winservice.Base.{
  ℕ, suc, ◌≤◌, Bool, true, false, ℤ, pos, int_scale, ltb_ℤ, Text, Buffer, codes, text_eq, memcpy_s,
  sprintf_s, Option, none, some, List, [], ◌∷◌, ◌++◌, if◌then◌else◌, Cmd, pure, get, modify, abort,
  ◌>>=◌, ◌>>◌,
}
use winservice.Base.Decimal.{atoi, show_nat}
use winservice.Log.Env.{LogEnv}
use winservice.Log.State.{Globals, LogCmd, max_path, backslash, read_string, or_abort, erase}
use winservice.Log.Directory.{create_deep_directory}

module _ {W D E : Type 0} (env : LogEnv W D E) where
  open env use {
    module_file_name, last_error, remove_file_spec, print_out, load_file, root_element,
    child_elements, value, get_text, new_document, tree_blocks, failed_blocks,
  }

  abbrev pub open_document : Text → LogCmd W ℕ
  open_document path = do
    s ← get
    let (p, w) = new_document path s.world
    modify (λ s. record s { live = p ∷ s.live; world = w })
    pure p

  -- `free(xml_Document)`: no destructor runs, so the tree's blocks stay allocated without an owner.
  abbrev pub free_document : List ℕ → ℕ → LogCmd W (Unit {0})
  free_document tree p = modify (λ s. record s { live = tree ++ erase p s.live })

  -- The argument is the array that `szLogPath` points to, `none` for NULL; the result is the
  -- return code and the array as it is left.
  unfoldable pub get_config_path : Option Buffer → ℤ → LogCmd W (ℕ × Option Buffer)
  get_config_path none len = pure (1, none)
  get_config_path (some buf) len = if ltb_ℤ len (pos 1) then pure (1, some buf) else do
    s ← get
    elim (module_file_name s.world) [
      | none ↦ (do
        modify (λ s. record s {
          world =
              print_out (codes "GetModuleFileNameA failed,err is " ++ show_nat (last_error s.world))
                s.world;
        })
        pure (1, some buf))
      | some path ↦ (do
        buf' ←
            or_abort (
              sprintf_s max_path (remove_file_spec path ++ (backslash ∷ codes "configure.xml")) buf)
        pure (0, some buf'))
    ]

  module _ (d : D) where
    -- The inner loop of a getter: the first element of the list with that name.
    unfoldable pub find_named : Text → List E → Option E
    find_named name [] = none
    find_named name (e ∷ es) =
        let rest = find_named name es in if text_eq name (value d e) then some e else rest

    -- Both loops of a getter, with the `goto end` of the first match.
    unfoldable pub find_in_logs : Text → List E → Option E
    unfolding find_named
    find_in_logs name [] = none
    find_in_logs name (e ∷ es) =
        let rest = find_in_logs name es in
        let here : Option E = find_named name (child_elements d e) in
        if text_eq (codes "Log") (value d e)
        then elim here [ none ↦ rest | some x ↦ some x ]
        else rest

    unfoldable pub find_setting : Text → E → Option E
    unfolding find_in_logs
    find_setting name root = find_in_logs name (child_elements d root)

    -- The text of a setting; `atoi(NULL)` and `strlen(NULL)` are faults.
    unfoldable pub setting_text : E → LogCmd W Text
    setting_text e s = or_abort (get_text d e) s

    unfoldable pub get_log_size : E → LogCmd W ℕ
    unfolding find_setting setting_text
    get_log_size root = elim (find_setting (codes "Size") root) [
      | none ↦ pure 1
      | some e ↦ (do
        t ← setting_text e
        modify (λ s. record s { log_size = int_scale 1024 (int_scale 1024 (atoi t)) })
        pure 0)
    ]

    unfoldable pub get_log_name : E → LogCmd W ℕ
    unfolding find_setting setting_text
    get_log_name root = elim (find_setting (codes "Name") root) [
      | none ↦ pure 1
      | some e ↦ (do
        t ← setting_text e
        s ← get
        buf ← or_abort (memcpy_s max_path t s.log_name)
        modify (λ s. record s { log_name = buf })
        pure 0)
    ]

    unfoldable pub get_log_num : E → LogCmd W ℕ
    unfolding find_setting setting_text
    get_log_num root = elim (find_setting (codes "Num") root) [
      | none ↦ pure 1
      | some e ↦ (do t ← setting_text e; modify (λ s. record s { log_num = atoi t }); pure 0)
    ]

    -- The result is the `BOOL` of `CreateDeepDirectory` as a number.
    unfoldable pub get_log_dir : E → LogCmd W ℕ
    unfolding find_setting
    get_log_dir root = elim (find_setting (codes "Dir") root) [
      | none ↦ pure 1
      | some e ↦ elim (get_text d e) [
        | none ↦ pure 1
        | some t ↦ (do
          s ← get
          buf ← or_abort (memcpy_s max_path t s.log_dir)
          modify (λ s. record s { log_dir = buf })
          path ← read_string buf
          made ← create_deep_directory env path
          pure (if made then 1 else 0))
      ]
    ]

    unfoldable pub get_log_current_index : E → LogCmd W ℕ
    unfolding find_setting setting_text
    get_log_current_index root = elim (find_setting (codes "Index") root) [
      | none ↦ pure 1
      | some e ↦ (do t ← setting_text e; modify (λ s. record s { log_index = atoi t }); pure 0)
    ]

  -- `if (bfind)`
  unfoldable pub read_settings : D → Option E → LogCmd W (Unit {0})
  unfolding get_log_size get_log_num get_log_dir get_log_current_index get_log_name
  read_settings d none = pure tt
  read_settings d (some e) = do
    get_log_size d e
    get_log_num d e
    get_log_dir d e
    get_log_current_index d e
    get_log_name d e
    pure tt

  unfoldable pub init_log_configure : Buffer → Text → LogCmd W ℕ
  unfolding find_named read_settings
  init_log_configure config name = do
    path ← read_string config
    p ← open_document path
    s ← get
    elim (load_file path s.world) [
      | none ↦ (do free_document (failed_blocks path s.world) p; pure 1)
      | some d ↦ elim (root_element d) [
        | none ↦ abort
        | some root ↦ (do
          read_settings d (find_named d name (child_elements d root))
          free_document (tree_blocks d) p
          pure 0)
      ]
    ]
