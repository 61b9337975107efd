-- ===== src/Log/Path/World.antt =====
-- What `setLogPath` does to the world: it deletes files.
use winservice.Base.{◌≡◌, Outcome, Text, arith}
use winservice.Log.Env.{LogEnv}
use winservice.Log.State.{Globals}
use winservice.Log.Path.{set_log_path, next_log_path, print_log_path}

module _ {W D E : Type 0} (env : LogEnv W D E) {H : Type 0} (history : W → H)
    (deleted : (p : Text) (w : W) → history (env.delete_file p w) ≡ history w) where
  pub set_log_path-history :
      (s : Globals W)
      → Outcome
          (λ _ t. history t.world ≡ history s.world)
          (λ t. history t.world ≡ history s.world)
          (set_log_path env s)
  unfolding set_log_path next_log_path print_log_path
  set_log_path-history s = grind (arith, deleted)
