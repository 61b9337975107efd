-- ===== src/Log/Write/Journal.antt =====
-- The lines that `defLogFunc` prints, message after message.
use mathlib.Core.Path.{subst}
use winservice.Base.{
  ℕ, ◌+◌, ◌<◌, ◌≡◌, refl, ◌∙◌, true, ℤ, pos, ◌≤ℤ◌, ◌<ℤ◌, int_suc, IsInt, Text, some, List, [], ◌∷◌,
  ◌++◌, length, Ends, Ends-ok, Outcome-ok, arith,
}
use winservice.Log.Env.{SystemTime, LogEnv}
use winservice.Log.State.{Handler, Globals, log_buf_size}
use winservice.Log.Path.{log_file}
use winservice.Log.Path.Rotation.{IsReady, same-IsReady}
use winservice.Log.Path.Choice.{set_log_path-range, set_log_path-SameMode}
use winservice.Log.Path.World.{set_log_path-history}
use winservice.Log.Write.{time_text, final_text, def_log_func}
use winservice.Log.Write.Lines.{length-time_text, length-final_text}
use winservice.Log.Write.Runs.{
  append_message-opened, line, now, with_blocks, world_tmp, world_final,
}
use winservice.Log.Write.Delivery.{IsRunning, prepare}

-- What has been printed, the last first: the path and the text.
abbrev pub Journal : Type 0
Journal = List (Text × Text)

module _ {W D E : Type 0} (env : LogEnv W D E) where
  open env use {malloc, local_time, open_append, print_file, close_file, delete_file}
  open env use {new_document}

  -- A view of the world in which each print to a file is an entry, and which the other calls leave.
  pub record IsJournal (journal : W → Journal) : Type 0 where
    pub printed : (p t : Text) (w : W) → journal (print_file p t w) ≡ (p, t) ∷ journal w
    pub closed : (p : Text) (w : W) → journal (close_file p w) ≡ journal w
    pub opened : (p : Text) (w : W) → journal (open_append p w).1 ≡ journal w
    pub deleted : (p : Text) (w : W) → journal (delete_file p w) ≡ journal w
    pub created : (p : Text) (w : W) → journal (new_document p w).1 ≡ journal w
    pub allocated : (n : ℕ) (w : W) → journal (malloc n w).1 ≡ journal w

  -- The library is loaded with its own log function and a configuration that is ready, outside its
  -- critical section, and its index is one of the configured files.
  pub record IsLogging (dir name : Text) (s : Globals W) : Type 0 where
    pub initialized : s.initialized ≡ true
    pub log : s.log ≡ some Handler.def_log
    pub mutex : s.mutex ≡ some 0
    pub ready : IsReady dir name s
    pub num : IsInt s.log_num
    pub low : pos 0 ≤ℤ s.log_index
    pub high : s.log_index <ℤ s.log_num

  module _ (dir name : Text) (journal : W → Journal) where
    -- One line more, in a file of the log.
    abbrev pub OneMore : (num : ℤ) (prefix message : Text) (j k : Journal) → Type 0
    OneMore num prefix message j k =
        (i : ℤ) × (time : SystemTime) × (pos 0 ≤ℤ i)
        × (i <ℤ num)
        × (k
            ≡ (log_file dir name (int_suc i), final_text prefix (time_text time) message ++ 10 ∷ [])
              ∷ j)

    abbrev pub Logged : (prefix message : Text) (s u : Globals W) → Type 0
    Logged prefix message s u =
        IsLogging dir name u
        × (u.log_num ≡ s.log_num)
        × (u.live ≡ s.live)
        × OneMore s.log_num prefix message (journal s.world) (journal u.world)

    pub def_log_func-Logged :
        (prefix message : Text) (s : Globals W)
        → IsRunning env
        → IsJournal journal
        → ((p : Text) (w : W) → (open_append p w).0 ≡ true)
        → IsLogging dir name s
        → length prefix + length message + 48 < log_buf_size
        → Ends (λ _ u. Logged prefix message s u) (def_log_func env prefix message s)
    def_log_func-Logged prefix message s running view opens h short =
        let entered : Globals W = record s { mutex = some 1 } in
        let p = prepare env dir name prefix message 0 s running h.ready h.mutex in
        let path = log_file dir name (int_suc p.t.log_index) in
        let ready = with_blocks env p.t p.a p.b p.c in
        let fits : length (line env prefix message p.a p.b p.c 0 (now env p.t) path ready)
            < log_buf_size =
          omega
            (arith, length-final_text prefix (now env p.t) message, length-time_text _ p.words) in
        let mode = Outcome-ok _ _ p.chosen (set_log_path-SameMode env entered) in
        let seen =
          Outcome-ok _ _ p.chosen (set_log_path-history env journal view.deleted entered) in
        let range = Ends-ok _ p.chosen (
          set_log_path-range env dir name entered
            (same-IsReady entered h.ready refl refl refl refl refl) h.num h.low h.high) in
        rw
          (
            p.ran,
            append_message-opened env prefix message p.a p.b p.c 0 (now env p.t) path ready p.t.live
                refl p.same.4 p.string fits (opens path (world_final env p.t)),
          )
          (
            record {
              initialized = mode.0 ∙ h.initialized;
              log = mode.1 ∙ h.log;
              mutex = refl;
              ready = same-IsReady _ p.ready refl refl refl refl refl;
              num = rw p.same.1 h.num;
              low = range.0;
              high = range.1;
            },
            p.same.1,
            p.same.5,
            (
              p.t.log_index,
              local_time (world_tmp env p.t),
              range.0,
              subst (λ n. p.t.log_index <ℤ n) p.same.1 range.1,
              simp (view.closed, view.printed, view.opened, view.allocated, seen) refl,
            ),
          )
