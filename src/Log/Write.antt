-- ===== src/Log/Write.antt =====
-- `myMalloc`, `Get_system_time`, `defLogFunc`, `setLogFunc`, the four logging functions and
-- `GlobalTest` of LogModule/LogModule.cpp. A message stands for the text of the format with its
-- arguments, which is what `vsprintf_s` prints. The build without `_SELF_TEST` is modelled.
pub mod Lines
pub mod Runs
pub mod Delivery
pub mod Mutex
pub mod Journal
use winservice.Base.{
  ℕ, ◌+◌, ◌==◌, Bool, true, false, not, ◌&&◌, int_suc, Text, codes, c_string, Option, none, some,
  is_some, List, [], ◌∷◌, ◌++◌, if◌then◌else◌, Cmd, pure, get, gets, modify, ◌>>=◌, ◌>>◌,
}
use winservice.Base.Decimal.{show_int, show_nat, show_padded}
use winservice.Log.Env.{SystemTime, LogEnv}
use winservice.Log.State.{
  Handler, def_log, user_log, Globals, LogCmd, form_size, time_len, log_buf_size, mutex_lock,
  mutex_unlock, free, read_string, print_text,
}
use winservice.Log.Path.{set_log_path}

-- `"%d-%.2d-%.2d  %d:%.2d:%.2d.%.3d"`
unfoldable pub time_text : SystemTime → Text
time_text t =
    show_nat t.year
    ++ (b'-'
        ∷ (show_padded 2 t.month
            ++ (b'-'
                ∷ (show_padded 2 t.day
                    ++ (codes "  "
                        ++ (show_nat t.hour
                            ++ (b':'
                                ∷ (show_padded 2 t.minute
                                    ++ (b':'
                                        ∷ (show_padded 2 t.second
                                            ++ (b'.' ∷ show_padded 3 t.milliseconds)))))))))))

-- `"|%s|%s|: %s\r"`
unfoldable pub final_text : Text → Text → Text → Text
final_text prefix time message =
    b'|' ∷ (prefix ++ (b'|' ∷ (time ++ (codes "|: " ++ (message ++ 13 ∷ [])))))

module _ {W D E : Type 0} (env : LogEnv W D E) where
  open env use {malloc, local_time, open_append, print_file, close_file, call_user, print_out}

  unfoldable pub my_malloc : ℕ → LogCmd W (Option ℕ)
  my_malloc size = do
    s ← get
    let (block, w) = malloc size s.world
    modify (λ s. record s { live = elim block [ none ↦ s.live | some p ↦ p ∷ s.live ]; world = w })
    pure block

  -- The block that holds the time, and its string.
  unfoldable pub get_system_time : LogCmd W (Option (ℕ × Text))
  unfolding my_malloc time_text
  get_system_time = do
    systime ← gets (λ s. local_time s.world)
    block ← my_malloc time_len
    elim block [
      | none ↦ pure none
      | some p ↦ (do t ← print_text time_len (time_text systime); pure (some (p, t)))
    ]

  -- The part of `defLogFunc` that has its three blocks.
  unfoldable pub append_message : Text → Text → ℕ → ℕ × Text → ℕ → LogCmd W (Unit {0})
  append_message prefix message tmp (time, time_string) final = do
    text ← print_text form_size message
    line ← print_text log_buf_size (final_text prefix time_string text)
    s ← get
    path ← read_string s.log_path
    let (opened, w) = open_append path s.world
    modify (λ s. record s { world = w })
    if not opened then mutex_unlock else do
      modify (λ s. record s { world = close_file path (print_file path (line ++ 10 ∷ []) s.world) })
      free tmp
      free time
      free final
      mutex_unlock

  -- `if (!szTmp || !szTime || !szFinal)`
  unfoldable pub append_if_allocated :
      Text → Text → Option ℕ → Option (ℕ × Text) → Option ℕ → LogCmd W (Unit {0})
  append_if_allocated prefix message none time final = mutex_unlock
  append_if_allocated prefix message (some p) none final = mutex_unlock
  append_if_allocated prefix message (some p) (some t) none = mutex_unlock
  append_if_allocated prefix message (some p) (some t) (some q) =
      append_message prefix message p t q

  -- The part of `defLogFunc` behind the choice of the file.
  unfoldable pub allocate_and_append : Text → Text → LogCmd W (Unit {0})
  unfolding my_malloc get_system_time append_if_allocated
  allocate_and_append prefix message = do
    tmp ← my_malloc form_size
    time ← get_system_time
    final ← my_malloc log_buf_size
    append_if_allocated prefix message tmp time final

  unfoldable pub def_log_func : Text → Text → LogCmd W (Unit {0})
  def_log_func prefix message = do
    mutex_lock
    failed ← set_log_path env
    if not (failed == 0) then mutex_unlock else allocate_and_append prefix message

  -- `if (_log) _log(prefix, f, m)`
  unfoldable pub log_message : Text → Text → LogCmd W (Unit {0})
  unfolding def_log_func
  log_message prefix message s = elim s.log [
    | none ↦ pure tt s
    | some handler ↦ elim handler [
      | def_log ↦ def_log_func prefix message s
      | user_log f ↦ pure tt (record s { world = call_user f prefix message s.world })
    ]
  ]

  unfoldable pub debug_log : Text → LogCmd W (Unit {0})
  unfolding log_message
  debug_log message = log_message (codes "Debug") message

  unfoldable pub info_log : Text → LogCmd W (Unit {0})
  unfolding log_message
  info_log message = log_message (codes "Info") message

  unfoldable pub warn_log : Text → LogCmd W (Unit {0})
  unfolding log_message
  warn_log message = log_message (codes "Warning") message

  unfoldable pub error_log : Text → LogCmd W (Unit {0})
  unfolding log_message
  error_log message = log_message (codes "Error") message

  unfoldable pub global_test : LogCmd W (Unit {0})
  global_test = do
    modify (λ s. record s { test = int_suc s.test })
    modify (λ s. record s { world = print_out (show_int s.test) s.world })

-- The result is the handler that the function returns, `none` for NULL.
unfoldable pub set_log_func : {W : Type 0} → Option Handler → LogCmd W (Option Handler)
set_log_func none = do modify (λ s. record s { log = some def_log }); pure (some def_log)
set_log_func (some f) = do s ← get; modify (λ s. record s { log = some f }); pure s.log
