-- ===== src/Log/Session/Journal.antt =====
-- A loaded library with its own log function: its messages and the lines that are printed.
use mathlib.Core.Path.{subst}
use winservice.Base.{
  ap, ◌++◌, ◌+◌, ◌<◌, ◌≡◌, refl, ◌∙◌, true, ℤ, Text, codes, List, [], ◌∷◌, length, and_then, Ends,
  Ends-bind, Ends-run, Ends-mono, none, arith,
}
use winservice.Log.Env.{LogEnv}
use winservice.Log.State.{Globals, log_buf_size}
use winservice.Log.Write.{log_message, debug_log, info_log, warn_log, error_log}
use winservice.Log.Write.Delivery.{IsRunning}
use winservice.Log.Write.Journal.{
  Journal, IsJournal, IsLogging, OneMore, Logged, def_log_func-Logged,
}
use winservice.Base.Decimal.{atoi}
use winservice.Log.Config.Settings.{HasSettings}
use winservice.Log.Module.{load_log_module}
use winservice.Log.Module.Start.{IsFresh, load_log_module-IsLogging}
use winservice.Log.Module.Load.{load_log_module-again}
use winservice.Log.Session.{
  LogCall, load_call, unload_call, test_call, debug_call, info_call, warn_call, error_call,
  log_call, run_log_calls,
}
use winservice.Log.Session.Silent.{all_logging}

-- The messages among the calls, with their prefixes.
abbrev pub messages : List LogCall → List (Text × Text)
messages [] = []
messages (load_call _ _ ∷ calls) = messages calls
messages (unload_call ∷ calls) = messages calls
messages (test_call ∷ calls) = messages calls
messages (debug_call m ∷ calls) = (codes "Debug", m) ∷ messages calls
messages (info_call m ∷ calls) = (codes "Info", m) ∷ messages calls
messages (warn_call m ∷ calls) = (codes "Warning", m) ∷ messages calls
messages (error_call m ∷ calls) = (codes "Error", m) ∷ messages calls

abbrev pub AllShort : List (Text × Text) → Type 0
AllShort [] = Unit
AllShort ((prefix, message) ∷ rest) =
    (length prefix + length message + 48 < log_buf_size) × AllShort rest

module _ {W D E : Type 0} (env : LogEnv W D E) (dir name : Text) (journal : W → Journal) where
  -- One line for each message, in their order, each in one of the files of the log.
  abbrev pub Printed : ℤ → List (Text × Text) → Journal → Journal → Type 0
  Printed num [] j k = k ≡ j
  Printed num ((prefix, message) ∷ rest) j k =
      (mid : Journal) × OneMore env dir name journal num prefix message j mid
      × Printed num rest mid k

  abbrev pub Written : List (Text × Text) → Globals W → Globals W → Type 0
  Written ms s u =
      IsLogging env dir name u
      × (u.live ≡ s.live)
      × Printed s.log_num ms (journal s.world) (journal u.world)

  module _ (running : IsRunning env) (view : IsJournal env journal)
      (opens : (p : Text) (w : W) → (env.open_append p w).0 ≡ true) where
    log_message-Logged :
        (prefix message : Text) (s : Globals W)
        → IsLogging env dir name s
        → length prefix + length message + 48 < log_buf_size
        → Ends
            (λ _ u. Logged env dir name journal prefix message s u)
            (log_message env prefix message s)
    unfolding log_message
    log_message-Logged prefix message s h short =
        simp (log_message, h.log)
          (def_log_func-Logged env dir name journal prefix message s running view opens h short)

    message-Written :
        (prefix message : Text) (calls : List LogCall) (s : Globals W)
        → IsLogging env dir name s
        → length prefix + length message + 48 < log_buf_size
        → ((u : Globals W)
            → IsLogging env dir name u
            → Ends (λ _ v. Written (messages calls) u v) (run_log_calls env calls u))
        → Ends
            (λ _ v. Written ((prefix, message) ∷ messages calls) s v)
            (and_then (log_message env prefix message s) (λ _. run_log_calls env calls))
    message-Written prefix message calls s h short later =
        Ends-bind (λ _ u. Logged env dir name journal prefix message s u)
          (λ _ v. Written ((prefix, message) ∷ messages calls) s v)
          (log_message env prefix message s) (λ _. run_log_calls env calls)
          (log_message-Logged prefix message s h short)
          λ _ u k.
            let (ready, num, live, more) = k in
            let (_, v, run, (logging, same, rest)) =
              Ends-run (λ _ v. Written (messages calls) u v) _ (later u ready) in
            let lines =
              subst (λ n. Printed n (messages calls) (journal u.world) (journal v.world)) num
                rest in
            rw run (logging, same ∙ live, (journal u.world, more, lines))

    -- In a process whose memory does not run out, whose clock gives a time and whose files open,
    -- with a history of what is printed to files that no other call changes, on a loaded library
    -- with its own log function, outside its critical section, with a configuration that is ready
    -- and an index of one of the files, whatever sequence of short messages and further loads: the
    -- calls return, each message has printed one line to one of the configured files, in the order
    -- of the messages, nothing else is printed to a file, no block is left allocated, and the
    -- library is as ready as before.
    pub run_log_calls-Written :
        (calls : List LogCall) (s : Globals W)
        → IsLogging env dir name s
        → all_logging calls ≡ true
        → AllShort (messages calls)
        → Ends (λ _ u. Written (messages calls) s u) (run_log_calls env calls s)
    unfolding run_log_calls log_call debug_log info_log warn_log error_log
    run_log_calls-Written [] s h logging short = (h, refl, refl)
    run_log_calls-Written (load_call n f ∷ calls) s h logging short =
        rw (load_log_module-again env s.log n f s h.initialized)
          (run_log_calls-Written calls s h logging short)
    run_log_calls-Written (unload_call ∷ calls) s h logging short = absurd (ground arith)
    run_log_calls-Written (test_call ∷ calls) s h logging short = absurd (ground arith)
    run_log_calls-Written (debug_call m ∷ calls) s h logging short =
        message-Written (codes "Debug") m calls s h short.0
          λ u k. run_log_calls-Written calls u k logging short.1
    run_log_calls-Written (info_call m ∷ calls) s h logging short =
        message-Written (codes "Info") m calls s h short.0
          λ u k. run_log_calls-Written calls u k logging short.1
    run_log_calls-Written (warn_call m ∷ calls) s h logging short =
        message-Written (codes "Warning") m calls s h short.0
          λ u k. run_log_calls-Written calls u k logging short.1
    run_log_calls-Written (error_call m ∷ calls) s h logging short =
        message-Written (codes "Error") m calls s h short.0
          λ u k. run_log_calls-Written calls u k logging short.1

    -- In a process whose memory does not run out, whose clock gives a time and whose files open,
    -- with a history of what is printed to files that no other call changes, before the first load:
    -- the program's configuration has all settings of the module, with names that fit a path and an
    -- index of one of the files, the static arrays are zero, and the directory is there. Then a
    -- load without a log function, and behind it whatever sequence of short messages and further
    -- loads, return; each message has printed one line to one of the files of the directory that
    -- the settings name, in the order of the messages, nothing else is printed to a file, and
    -- besides the blocks from before, those of the tree of the configuration's document are left
    -- allocated and no others.
    pub run_log_calls-Printed :
        (d : D) (e : E) (size num index exe path title : Text) (calls : List LogCall)
        (s : Globals W)
        → HasSettings env d e dir name size num index
        → IsFresh env d e dir name size num index exe path title s
        → all_logging calls ≡ true
        → AllShort (messages calls)
        → Ends
            (λ _ u.
              (u.live ≡ env.tree_blocks d ++ s.live)
              × Printed (atoi num) (messages calls) (journal s.world) (journal u.world))
            (run_log_calls env (load_call title none ∷ calls) s)
    unfolding run_log_calls log_call
    run_log_calls-Printed d e size num index exe path title calls s settings fresh logging short =
        let (code, t, run, (_, ready, count, live, world)) =
          Ends-run _ (load_log_module env title none s) (
            load_log_module-IsLogging env d e dir name size num index exe path title s settings
              fresh) in
        rw run (
          Ends-mono (run_log_calls env calls t) (run_log_calls-Written calls t ready logging short)
            λ _ u (k : Written (messages calls) t u).
              let counted =
                subst (λ n. Printed n (messages calls) (journal t.world) (journal u.world)) count
                  k.2 in
              let lines =
                subst (λ j. Printed (atoi num) (messages calls) j (journal u.world))
                  (ap journal world ∙ view.created path s.world) counted in
              (k.1 ∙ live, lines))
