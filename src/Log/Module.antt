-- ===== src/Log/Module.antt =====
-- `saveLogIndex`, `LoadLogModule` and `UnloadLogModule` of LogModule/LogModule.cpp.
pub mod Index
pub mod Stored
pub mod RoundTrip
pub mod Load
pub mod Start
use winservice.Base.{
  ℕ, ◌==◌, not, Bool, true, false, ℤ, pos, Text, Buffer, codes, text_eq, Option, none, some, List,
  [], ◌∷◌, if◌then◌else◌, Cmd, pure, get, modify, abort, ◌>>=◌, ◌>>◌,
}
use winservice.Base.Decimal.{show_int}
use winservice.Log.Env.{LogEnv}
use winservice.Log.State.{
  Handler, Globals, LogCmd, max_path, mutex_init, mutex_lock, mutex_unlock, read_string,
}
use winservice.Log.Write.{set_log_func}
use winservice.Log.Config.{
  get_config_path, find_named, init_log_configure, open_document, free_document,
}

module _ {W D E : Type 0} (env : LogEnv W D E) where
  open env use {
    tree_blocks, failed_blocks, load_file, save_file, root_element, child_elements, value, clear,
    link_text,
  }
  open env use {new_element, link_child}

  module _ (d : D) (index : Text) where
    -- Behind the loops: `log_element` is the last "Log" element that was seen.
    unfoldable pub add_index : Option E → D
    add_index none = d
    add_index (some log_element) =
        let (e, d') = new_element (codes "Index") d in
        link_child log_element e (link_text e index d')

    unfoldable pub save_in_logs : Option E → List E → D
    unfolding add_index
    save_in_logs log_element [] = add_index log_element
    save_in_logs log_element (e ∷ es) =
        let skip = save_in_logs log_element es in
        let next = save_in_logs (some e) es in
        let here : Option E = find_named env d (codes "Index") (child_elements d e) in
        if text_eq (codes "Log") (value d e)
        then elim here [ none ↦ next | some x ↦ link_text x index (clear x d) ]
        else skip

  -- The document that is left; the function returns 0 on every path.
  unfoldable pub save_log_index : ℤ → E → D → D
  unfolding save_in_logs
  save_log_index index root d = save_in_logs d (show_int index) none (child_elements d root)

  unfoldable pub load_log_module : Text → Option Handler → LogCmd W ℕ
  load_log_module name f = do
    s ← get
    if s.initialized then pure 2 else do
      modify (λ s. record s { initialized = true })
      mutex_init
      (failed, config) ← get_config_path env (some s.config_path) (pos max_path)
      modify (λ t. record t { config_path = elim config [ none ↦ t.config_path | some b ↦ b ] })
      if not (failed == 0) then pure 1 else do
        t ← get
        failed ← init_log_configure env t.config_path name
        if not (failed == 0) then pure 1 else do set_log_func f; pure 0

  unfoldable pub unload_log_module : LogCmd W ℕ
  unfolding save_log_index
  unload_log_module = do
    mutex_lock
    s ← get
    path ← read_string s.config_path
    p ← open_document env path
    s ← get
    elim (load_file path s.world) [
      | none ↦ (do free_document env (failed_blocks path s.world) p; mutex_unlock; pure 1)
      | some d ↦ elim (root_element d) [
        | none ↦ abort
        | some root ↦
            let d' = save_log_index s.log_index root d in
            (do
              modify (λ s. record s { world = save_file d' path s.world })
              free_document env (tree_blocks d') p
              mutex_unlock
              pure 0)
      ]
    ]
