-- ===== src/Log/Module/RoundTrip.antt =====
-- The index across `UnloadLogModule` and the next start.
use winservice.Base.{
  ◌++◌, ◌∷◌, ◌+◌, ◌-◌, ℕ, ◌≡◌, ◌≢◌, sym, ◌∙◌, inl, inr, true, false, Option-cases, ℤ, IsInt, Text,
  c_string, none, some, All, All-mono, ok, arith,
}
use winservice.Base.Decimal.{show_int}
use winservice.Base.Decimal.Laws.{atoi-show_int}
use winservice.Log.Env.{LogEnv}
use winservice.Log.State.{Globals, mutex_lock, read_string, erase}
use winservice.Log.Config.{find_in_logs, get_log_current_index}
use winservice.Log.Config.Search.{find_in_logs-All, find_in_logs-value}
use winservice.Log.Module.{add_index, save_log_index, unload_log_module}
use winservice.Log.Module.Index.{
  IsDom, set_text, added, add_child, index_name, last_log, any_log, save_in_logs-found,
  save_in_logs-missing, last_log-some, last_log-All, save_in_logs-no_log,
}
use winservice.Log.Module.Stored.{find_in_logs-set, find_in_logs-add}

module _ {W D E : Type 0} (env : LogEnv W D E) where
  open env use {child_elements, value, get_text, root_element, load_file, save_file}
  open env use {new_document, tree_blocks}

  -- The element, its children and theirs are apart, and a new element is none of them.
  pub record IsTree (d : D) (root : E) : Type 0 where
    pub fresh_root : root ≢ added env (index_name env) d
    pub below :
        All
          (λ e.
            (e ≢ root)
            × (e ≢ added env (index_name env) d)
            × All (λ c. (c ≢ root) × (c ≢ added env (index_name env) d)) (child_elements d e))
          (child_elements d root)

  -- Reading an index element that holds the text of an index.
  read_index :
      (d : D) (root x : E) (index : ℤ) (s : Globals W)
      → IsInt index
      → find_in_logs env d (index_name env) (child_elements d root) ≡ some x
      → get_text d x ≡ some (show_int index)
      → get_log_current_index env d root s ≡ ok 0 (record s { log_index = index })
  unfolding get_log_current_index
  read_index d root x index s int found text = ground (arith, found, text, atoi-show_int index int)

  module _ (d : D) (root x : E) (t : Text) (dom : IsDom env d) (tree : IsTree d root) where
    -- The stored index is found again, where an "Index" element was there before.
    found-set :
        find_in_logs env d (index_name env) (child_elements d root) ≡ some x
        → find_in_logs env
            (set_text env x t d)
            (index_name env)
            (child_elements (set_text env x t d) root)
          ≡ some x
    found-set found =
        let is_index = find_in_logs-value env d _ _ x found in
        let apart : x ≢ root =
          find_in_logs-All env d (λ c. c ≢ root) _ _ x
            (All-mono _ _ _ (λ e h. All-mono _ _ _ (λ c k. k.0) h.2) tree.below) found in
        rw (dom.set_children x root t (λ e. apart (sym e)))
          (find_in_logs-set env d dom t x is_index _ _ ∙ found)

    -- Where none was there, it is linked below `x`.
    found-add :
        find_in_logs env d (index_name env) (child_elements d root) ≡ none
        → last_log env d none (child_elements d root) ≡ some x
        → any_log env d (child_elements d root) ≡ true
        → find_in_logs env
            (add_child env x (index_name env) t d)
            (index_name env)
            (child_elements (add_child env x (index_name env) t d) root)
          ≡ some (added env (index_name env) d)
    found-add missing last log =
        let apart : x ≢ root =
          last_log-All env d (λ c. c ≢ root) none _ x tt (All-mono _ _ _ (λ e h. h.0) tree.below)
            last in
        rw (dom.add_children x root (index_name env) t (λ e. apart (sym e)) tree.fresh_root) (
          find_in_logs-add env d dom t x none _
            (All-mono _ _ _ (λ e h. (h.1, All-mono _ _ _ (λ c k. k.1) h.2)) tree.below) missing last
            log)

  -- What `saveLogIndex` writes into a document below an element, `getLogCurrentIndex` reads below
  -- the same element: the index, whether an "Index" element was there before or not. The element
  -- has a "Log" child, the document behaves as a tree, and the index is an `int`.
  pub save_log_index-read :
      (d : D) (root : E) (index : ℤ) (s : Globals W)
      → IsDom env d
      → IsTree d root
      → any_log env d (child_elements d root) ≡ true
      → IsInt index
      → get_log_current_index env (save_log_index env index root d) root s
        ≡ ok 0 (record s { log_index = index })
  unfolding save_log_index add_index
  save_log_index-read d root index s dom tree log int =
      elim (Option-cases (find_in_logs env d (index_name env) (child_elements d root))) [
        | inr (x, found) ↦ rw (save_in_logs-found env d (show_int index) none _ x found) (
            read_index _ root x index s int (found-set d root x (show_int index) dom tree found)
              (dom.set_get_text x (show_int index)))
        | inl missing ↦
            let (l, last) = last_log-some env d none (child_elements d root) log in
            rw (save_in_logs-missing env d (show_int index) none _ missing, last)
              (read_index _ root _ index s int
                (found-add d root l (show_int index) dom tree missing last log)
                (dom.add_get_text l (index_name env) (show_int index)))
      ]

  -- If no child of the document's root element is a "Log" element, as where the "Log" element stands
  -- below the module's own element, `UnloadLogModule` stores the document as it was, whatever the
  -- index is, and the tree of the document stays allocated.
  pub unload_log_module-unsaved :
      (n : ℕ) (path : Text) (d : D) (root : E) (s : Globals W)
      → s.mutex ≡ some n
      → c_string s.config_path ≡ some path
      → load_file path (new_document path s.world).1 ≡ some d
      → root_element d ≡ some root
      → any_log env d (child_elements d root) ≡ false
      → unload_log_module env s
        ≡ ok 0 (record s {
          live = tree_blocks d ++ s.live;
          world = save_file d path (new_document path s.world).1;
        })
  unfolding unload_log_module
  unload_log_module-unsaved n path d root s lock config loaded is_root no_log =
      let v : Globals W = record s { mutex = some (n + 1) } in
      let locked : mutex_lock s ≡ ok tt v = simp (mutex_lock, lock) in
      let read : read_string s.config_path v ≡ ok path v = simp (read_string, config) in
      let made = new_document path s.world in
      let gone : erase made.0 (made.0 ∷ s.live) ≡ s.live = ground arith in
      let back : n + 1 - 1 ≡ n = omega arith in
      let same = save_in_logs-no_log env d (show_int s.log_index) (child_elements d root) no_log in
      simp (unload_log_module, locked, read, loaded, is_root, same, gone, lock, back)
