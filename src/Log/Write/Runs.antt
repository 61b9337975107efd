-- ===== src/Log/Write/Runs.antt =====
-- The runs of `defLogFunc` behind `setLogPath`, step by step.
use winservice.Base.{
  ℕ, ◌+◌, ◌<◌, ◌≤◌, ◌≡◌, true, false, Text, c_string, some, List, [], ◌∷◌, ◌++◌, length, ok, crash,
  arith,
}
use winservice.Log.Env.{LogEnv}
use winservice.Log.State.{Globals, form_size, time_len, log_buf_size, erase}
use winservice.Log.Path.{set_log_path}
use winservice.Log.Write.{time_text, final_text, append_message, def_log_func, allocate_and_append}
use winservice.Log.Write.Lines.{IsWords, length-time_text, length-final_text}

-- Freeing the three blocks that were allocated last, in the order of their allocation, leaves the
-- others.
erase_three : (a b c : ℕ) (ps : List ℕ) → erase c (erase b (erase a (c ∷ b ∷ a ∷ ps))) ≡ ps
erase_three a b c ps = ground arith

module _ {W D E : Type 0} (env : LogEnv W D E) where
  open env use {malloc, local_time, open_append, print_file, close_file}

  module _ (prefix message : Text) (a b c n : ℕ) (time path : Text) (s : Globals W) where
    abbrev pub line : Text
    line = final_text prefix time message

    pub append_message-opened :
        (ps : List ℕ)
        → s.live ≡ c ∷ b ∷ a ∷ ps
        → s.mutex ≡ some (n + 1)
        → c_string s.log_path ≡ some path
        → length line < log_buf_size
        → (open_append path s.world).0 ≡ true
        → append_message env prefix message a (b, time) c s
          ≡ ok tt (record s {
            live = ps;
            mutex = some n;
            world =
                close_file path (print_file path (line ++ 10 ∷ []) (open_append path s.world).1);
          })
    unfolding append_message
    append_message-opened ps live lock string short opened = ground (
      arith,
      live,
      lock,
      string,
      opened,
      length-final_text prefix time message,
      erase_three a b c ps,
    )

    -- The file cannot be opened: the three blocks stay allocated.
    pub append_message-closed :
        s.mutex ≡ some (n + 1)
        → c_string s.log_path ≡ some path
        → length line < log_buf_size
        → (open_append path s.world).0 ≡ false
        → append_message env prefix message a (b, time) c s
          ≡ ok tt (record s { mutex = some n; world = (open_append path s.world).1 })
    unfolding append_message
    append_message-closed lock string short closed =
        ground (arith, lock, string, closed, length-final_text prefix time message)

    -- The line does not fit: the process ends.
    pub append_message-long :
        log_buf_size ≤ length line → append_message env prefix message a (b, time) c s ≡ crash s
    unfolding append_message
    append_message-long long = ground (arith, length-final_text prefix time message)

  module _ (t : Globals W) where
    -- The worlds behind the three allocations.
    abbrev pub world_tmp : W
    world_tmp = (malloc form_size t.world).1

    abbrev pub world_time : W
    world_time = (malloc time_len world_tmp).1

    abbrev pub world_final : W
    world_final = (malloc log_buf_size world_time).1

    abbrev pub with_blocks : (a b c : ℕ) → Globals W
    with_blocks a b c = record t { live = c ∷ b ∷ a ∷ t.live; world = world_final }

    abbrev pub now : Text
    now = time_text (local_time world_tmp)

    pub def_log_func-allocated :
        (prefix message : Text) (a b c n : ℕ) (s : Globals W)
        → s.mutex ≡ some n
        → set_log_path env (record s { mutex = some (n + 1) }) ≡ ok 0 t
        → IsWords (local_time world_tmp)
        → (malloc form_size t.world).0 ≡ some a
        → (malloc time_len world_tmp).0 ≡ some b
        → (malloc log_buf_size world_time).0 ≡ some c
        → def_log_func env prefix message s
          ≡ append_message env prefix message a (b, now) c (with_blocks a b c)
    unfolding def_log_func allocate_and_append
    def_log_func-allocated prefix message a b c n s lock chosen words ma mb mc =
        ground (arith, lock, chosen, length-time_text (local_time world_tmp) words, ma, mb, mc)
