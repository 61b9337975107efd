-- ===== src/Log/Write/Delivery.antt =====
-- What `defLogFunc` does with a message on each of its ways.
use winservice.Base.{
  ℕ, ◌+◌, ◌<◌, ◌≤◌, ◌≡◌, refl, sym, ap, ◌∙◌, true, false, int_suc, Text, c_string, some, List, [],
  ◌∷◌, ◌++◌, length, ok, Ends, Ends-run, Crashes, arith,
}
use winservice.Log.Env.{SystemTime, LogEnv}
use winservice.Log.State.{Globals, form_size, time_len, log_buf_size}
use winservice.Log.Path.{log_file, set_log_path}
use winservice.Log.Path.Rotation.{IsReady, same-IsReady}
use winservice.Log.Path.Choice.{SameConfig, set_log_path-rotates}
use winservice.Log.Write.{time_text, final_text, append_message, def_log_func}
use winservice.Log.Write.Lines.{IsWords, length-time_text, length-final_text}
use winservice.Log.Write.Runs.{
  append_message-opened, append_message-closed, append_message-long, def_log_func-allocated, line,
  now, with_blocks, world_tmp, world_time, world_final,
}

module _ {W D E : Type 0} (env : LogEnv W D E) where
  open env use {malloc, local_time, open_append, print_file, close_file}

  -- The allocator does not run out of memory, and the clock fills a `SYSTEMTIME`.
  pub record IsRunning : Type 0 where
    pub allocates : (size : ℕ) (w : W) → (p : ℕ) × ((malloc size w).0 ≡ some p)
    pub clock : (w : W) → IsWords (local_time w)

  -- `defLogFunc` has chosen the file and has its blocks.
  pub record Prepared (dir name prefix message : Text) (n : ℕ) (s : Globals W) : Type 0 where
    pub t : Globals W
    pub a : ℕ
    pub b : ℕ
    pub c : ℕ
    pub chosen : set_log_path env (record s { mutex = some (n + 1) }) ≡ ok 0 t
    pub string : c_string t.log_path ≡ some (log_file dir name (int_suc t.log_index))
    pub ready : IsReady dir name t
    pub same : SameConfig (record s { mutex = some (n + 1) }) t
    pub words : IsWords (local_time (world_tmp env t))
    pub ran :
        def_log_func env prefix message s
        ≡ append_message env prefix message a (b, now env t) c (with_blocks env t a b c)

  pub prepare :
      (dir name prefix message : Text) (n : ℕ) (s : Globals W)
      → IsRunning
      → IsReady dir name s
      → s.mutex ≡ some n
      → Prepared dir name prefix message n s
  prepare dir name prefix message n s running h lock =
      let entered : Globals W = record s { mutex = some (n + 1) } in
      let ready = same-IsReady entered h refl refl refl refl refl in
      let (r, t, run, facts) = Ends-run _ _ (set_log_path-rotates env dir name entered ready) in
      let (a, ma) = running.allocates form_size t.world in
      let (b, mb) = running.allocates time_len (world_tmp env t) in
      let (c, mc) = running.allocates log_buf_size (world_time env t) in
      let chosen : set_log_path env entered ≡ ok 0 t = run ∙ ap (λ (k : ℕ). ok k t) facts.0 in
      let words = running.clock (world_tmp env t) in
      record {
        t = t;
        a = a;
        b = b;
        c = c;
        chosen = chosen;
        string = facts.2;
        ready = facts.3;
        same = facts.4;
        words = words;
        ran = def_log_func-allocated env t prefix message a b c n s lock chosen words ma mb mc;
      }

  -- The last thing done to the world was to print the line, with some time, to the file and to
  -- close the file.
  abbrev pub IsPrinted : Text → Text → Text → W → Type 0
  IsPrinted prefix message path world =
      (time : SystemTime) × (w : W) × (world
        ≡ close_file path
            (print_file path (final_text prefix (time_text time) message ++ 10 ∷ []) w))

  module _ (dir name prefix message : Text) (n : ℕ) (s : Globals W) (running : IsRunning)
      (h : IsReady dir name s) (lock : s.mutex ≡ some n) where
    -- In a process that is running, with a configuration that is ready, files that open and a message
    -- that has, with its prefix, fewer than 2000 bytes, `defLogFunc` returns. The last thing done to
    -- the world is to print the line to the file of the index that the log then has, and to close it;
    -- the blocks that are allocated and the mutex are as before, and the configuration stays ready.
    pub def_log_func-appends :
        ((p : Text) (w : W) → (open_append p w).0 ≡ true)
        → length prefix + length message + 48 < log_buf_size
        → Ends
            (λ _ u.
              (u.mutex ≡ s.mutex)
              × (u.live ≡ s.live)
              × IsReady dir name u
              × IsPrinted prefix message (log_file dir name (int_suc u.log_index)) u.world)
            (def_log_func env prefix message s)
    def_log_func-appends opens short =
        let p = prepare dir name prefix message n s running h lock in
        let path = log_file dir name (int_suc p.t.log_index) in
        let ready = with_blocks env p.t p.a p.b p.c in
        let fits : length (line env prefix message p.a p.b p.c n (now env p.t) path ready)
            < log_buf_size =
          omega
            (arith, length-final_text prefix (now env p.t) message, length-time_text _ p.words) in
        rw
          (
            p.ran,
            append_message-opened env prefix message p.a p.b p.c n (now env p.t) path ready p.t.live
                refl p.same.4 p.string fits (opens path (world_final env p.t)),
          )
          (
            sym lock,
            p.same.5,
            same-IsReady _ p.ready refl refl refl refl refl,
            (local_time (world_tmp env p.t), _, refl),
          )

    -- In the same setting, but with files that do not open, `defLogFunc` returns and leaves the mutex
    -- as it was, and three more blocks are allocated than before.
    pub def_log_func-closed :
        ((p : Text) (w : W) → (open_append p w).0 ≡ false)
        → length prefix + length message + 48 < log_buf_size
        → Ends
            (λ _ u.
              (u.mutex ≡ s.mutex) × ((a : ℕ) × (b : ℕ) × (c : ℕ) × (u.live ≡ c ∷ b ∷ a ∷ s.live)))
            (def_log_func env prefix message s)
    def_log_func-closed closed short =
        let p = prepare dir name prefix message n s running h lock in
        let path = log_file dir name (int_suc p.t.log_index) in
        let ready = with_blocks env p.t p.a p.b p.c in
        let fits : length (line env prefix message p.a p.b p.c n (now env p.t) path ready)
            < log_buf_size =
          omega
            (arith, length-final_text prefix (now env p.t) message, length-time_text _ p.words) in
        rw
          (
            p.ran,
            append_message-closed env prefix message p.a p.b p.c n (now env p.t) path ready p.same.4
                p.string fits (closed path (world_final env p.t)),
          )
          (sym lock, (p.a, p.b, p.c, ap (λ (l : List ℕ). p.c ∷ p.b ∷ p.a ∷ l) p.same.5))

    -- In a process whose memory does not run out and whose clock gives a time, with a configuration
    -- that is ready (terminated names that fit a path, a number of files that is not 0) and an
    -- initialized critical section: a message that has, with its prefix, 2042 bytes or more ends the
    -- process, with the critical section entered once more than before.
    pub def_log_func-long :
        log_buf_size ≤ length prefix + length message + 6
        → Crashes (λ u. u.mutex ≡ some (n + 1)) (def_log_func env prefix message s)
    def_log_func-long long =
        let p = prepare dir name prefix message n s running h lock in
        let path = log_file dir name (int_suc p.t.log_index) in
        let ready = with_blocks env p.t p.a p.b p.c in
        rw
          (
            p.ran,
            append_message-long env prefix message p.a p.b p.c n (now env p.t) path ready
                (omega (arith, length-final_text prefix (now env p.t) message)),
          )
          p.same.4
