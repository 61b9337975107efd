-- ===== src/Log/Path.antt =====
-- `getFileSize` and `setLogPath` of LogModule/LogModule.cpp: which file the next message goes to.
use winservice.Base.{
  ℕ, ◌-◌, ◌+◌, Bool, true, false, not, ◌||◌, ℤ, pos, negsuc, ltb_ℤ, eqb_ℤ, int_suc, Text, codes,
  sprintf_s, Option, none, some, [], ◌∷◌, ◌++◌, length, replicate, if◌then◌else◌, Cmd, pure, get,
  modify, ◌>>=◌, ◌>>◌,
}
use winservice.Base.Decimal.{show_int}
use winservice.Log.Env.{LogEnv}
use winservice.Log.State.{Globals, LogCmd, max_path, backslash, read_string, or_abort, print_text}
pub mod Rotation
pub mod Choice
pub mod World

-- `"%s\\%s_%d.txt"`
unfoldable pub log_file : Text → Text → ℤ → Text
log_file dir name n = dir ++ (backslash ∷ (name ++ (b'_' ∷ (show_int n ++ codes ".txt"))))

module _ {W D E : Type 0} (env : LogEnv W D E) where
  open env use {stat, path_exists, delete_file}

  unfoldable pub get_file_size : Text → W → ℤ
  get_file_size path w = elim (stat path w) [ none ↦ negsuc 0 | some size ↦ size ]

  -- `sprintf_s(_log_path, MAX_PATH, "%s\\%s_%d.txt", _log_dir, _log_name, _log_index + 1)`
  print_log_path : Text → Text → LogCmd W Text
  print_log_path dir name = do
    s ← get
    let path = log_file dir name (int_suc s.log_index)
    buf ← or_abort (sprintf_s max_path path s.log_path)
    modify (λ s. record s { log_path = buf })
    pure path

  -- The file of the current index is full: move to the next one, or back to the first.
  next_log_path : Text → Text → LogCmd W ℕ
  unfolding print_log_path
  next_log_path dir name = do
    modify (λ s. record s { log_index = int_suc s.log_index })
    s ← get
    if ltb_ℤ s.log_index s.log_num
        then (do
          path ← print_log_path dir name
          t ← get
          if path_exists path t.world
              then (do modify (λ s. record s { world = delete_file path s.world }); pure 0)
              else pure 0)
        else (do
          modify (λ s. record s { log_index = pos 0 })
          path ← print_log_path dir name
          modify (λ s. record s { world = delete_file path s.world })
          pure 0)

  unfoldable pub set_log_path : LogCmd W ℕ
  unfolding get_file_size next_log_path
  set_log_path = do
    s ← get
    if eqb_ℤ s.log_num (pos 0) then pure 1 else do
      dir ← read_string s.log_dir
      name ← read_string s.log_name
      temp ← print_text max_path (log_file dir name (int_suc s.log_index))
      let size = get_file_size temp s.world
      if not (path_exists temp s.world) || ltb_ℤ size s.log_size
          then (do
            modify (λ s. record s { log_path = temp ++ replicate (max_path - length temp) 0 })
            pure 0)
          else next_log_path dir name
