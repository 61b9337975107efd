-- ===== src/Log/Directory.antt =====
-- `CreateDeepDirectory` of LogModule/LogModule.cpp.
pub mod Made
use winservice.Base.{
  ℕ, Bool, true, false, Text, Buffer, codes, memcpy_s, tokens, List, [], ◌∷◌, ◌++◌, replicate,
  if◌then◌else◌, pure, get, modify, ◌>>=◌, ◌>>◌,
}
use winservice.Base.Decimal.{show_nat}
use winservice.Log.Env.{LogEnv}
use winservice.Log.State.{Globals, LogCmd, max_path, backslash, read_string, or_abort}
use winservice.Log.Write.{warn_log}

-- `"CreateDeepDirectory :CreateDirectory for %s Failed with ErrorCode is %d"`
unfoldable pub refusal_text : Text → ℕ → Text
refusal_text path error =
    codes "CreateDeepDirectory :CreateDirectory for "
    ++ (path ++ (codes " Failed with ErrorCode is " ++ show_nat error))

module _ {W D E : Type 0} (env : LogEnv W D E) where
  open env use {path_exists, create_directory, last_error}

  -- One round of the loop, at the new `strDirectory`: whether the loop goes on.
  unfoldable pub enter_dir : Text → LogCmd W Bool
  enter_dir next = do
    s ← get
    if path_exists next s.world then pure true else do
      let (created, w) = create_directory next s.world
      modify (λ s. record s { world = w })
      if created then pure true else do warn_log env (refusal_text next (last_error w)); pure false

  -- The loop over the tokens; `dir` is `strDirectory`.
  unfoldable pub make_dirs : Text → List Text → LogCmd W Bool
  make_dirs dir [] = pure true
  make_dirs dir (token ∷ rest) =
      let deeper = make_dirs (dir ++ (token ++ backslash ∷ [])) rest in
      do there ← enter_dir (dir ++ (token ++ backslash ∷ [])); if there then deeper else pure false

  unfoldable pub create_deep_directory : Text → LogCmd W Bool
  unfolding enter_dir make_dirs
  create_deep_directory path = do
    s ← get
    if path_exists path s.world then pure true else do
      copy ← or_abort (memcpy_s max_path path (replicate max_path 0))
      directory ← read_string copy
      make_dirs [] (tokens backslash directory)
