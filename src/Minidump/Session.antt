-- ===== src/Minidump/Session.antt =====
-- The handlers of the process from `StartCrashDump` to `StopCrashDump`, and the dump of a crash.
use winservice.Base.{
  ℕ, ◌≡◌, refl, ◌∙◌, ok, inl, inr, true, false, Option-cases, Text, Option, none, some, length, leb,
  ◌<◌, ◌⊎◌, ◌>>=◌, Ends, Crashes, arith,
}
use winservice.Minidump.Env.{DumpEnv}
use winservice.Minidump.Dump.{
  WinMiniDump, Crash, un_set_invalid_handle, new_dump, start_crash_dump, stop_crash_dump, dump_path,
  store, max_path,
}

-- Documented behaviour of the handlers of the C runtime: setting one returns the one before, and
-- an allocation leaves them.
pub record HandlerLaws {W : Type 0} (env : DumpEnv W) : Type 0 where
  pub invalid_parameter : W → Option ℕ
  pub purecall : W → Option ℕ
  pub set_invalid_parameter-old :
      (h : Option ℕ) (w : W) → (env.set_invalid_parameter h w).0 ≡ invalid_parameter w
  pub set_invalid_parameter-new :
      (h : Option ℕ) (w : W) → invalid_parameter (env.set_invalid_parameter h w).1 ≡ h
  pub set_invalid_parameter-other :
      (h : Option ℕ) (w : W) → purecall (env.set_invalid_parameter h w).1 ≡ purecall w
  pub set_purecall-old : (h : Option ℕ) (w : W) → (env.set_purecall h w).0 ≡ purecall w
  pub set_purecall-new : (h : Option ℕ) (w : W) → purecall (env.set_purecall h w).1 ≡ h
  pub set_purecall-other :
      (h : Option ℕ) (w : W) → invalid_parameter (env.set_purecall h w).1 ≡ invalid_parameter w
  pub allocate-invalid_parameter :
      (w : W) → invalid_parameter (env.allocate w).1 ≡ invalid_parameter w
  pub allocate-purecall : (w : W) → purecall (env.allocate w).1 ≡ purecall w

store-same : (p : ℕ) (o : Option WinMiniDump) (f : ℕ → Option WinMiniDump) → store p o f p ≡ o
store-same p o f = ground arith

shorter : (path : Text) → length path < max_path → leb max_path (length path) ≡ false
shorter path fits = ground arith

module _ {W : Type 0} (env : DumpEnv W) where
  open env use {allocate}

  -- The state behind a start, and behind the deletion of an object.
  abbrev started : ℕ → Crash W → Crash W
  started func s =
      let memory = allocate s.world in
      let made = new_dump env func memory.1 in
      record s {
        win_dump = some memory.0;
        objects = store memory.0 (some made.0) s.objects;
        world = made.1;
      }

  abbrev deleted : ℕ → WinMiniDump → Crash W → Crash W
  deleted p d s = record s {
    objects = store p none s.objects;
    world = un_set_invalid_handle env d s.world;
  }

  start_crash_dump-first :
      (func : ℕ) (s : Crash W)
      → s.win_dump ≡ none
      → start_crash_dump env (some func) s ≡ ok true (started func s)
  unfolding start_crash_dump
  start_crash_dump-first func s fresh = ground (arith, fresh)

  stop_crash_dump-deletes :
      (p : ℕ) (d : WinMiniDump) (s : Crash W)
      → s.win_dump ≡ some p
      → s.objects p ≡ some d
      → stop_crash_dump env s ≡ ok tt (deleted p d s)
  unfolding stop_crash_dump
  stop_crash_dump-deletes p d s e alive = ground (arith, e, alive)

  stop_crash_dump-faults :
      (p : ℕ) (s : Crash W)
      → s.win_dump ≡ some p
      → s.objects p ≡ none
      → Crashes (λ _. Unit {0}) (stop_crash_dump env s)
  unfolding stop_crash_dump
  stop_crash_dump-faults p s e gone = ground (arith, e, gone)

  -- Where `_pWinDump` is set, `StopCrashDump` twice ends in the deletion of an object that is gone,
  -- which is a fault.
  pub stop_twice-Crashes :
      (p : ℕ) (s : Crash W)
      → s.win_dump ≡ some p
      → Crashes (λ _. Unit {0}) ((stop_crash_dump env >>= λ _. stop_crash_dump env) s)
  stop_twice-Crashes p s e = elim (Option-cases (s.objects p)) [
    | inl gone ↦ let fault = stop_crash_dump-faults p s e gone in ground (arith, fault)
    | inr (d, alive) ↦
        rw (stop_crash_dump-deletes p d s e alive)
          (stop_crash_dump-faults p (deleted p d s) e (store-same p none s.objects))
  ]

module _ {W : Type 0} (env : DumpEnv W) (laws : HandlerLaws env) where
  open env use {
    allocate, set_invalid_parameter, set_purecall, invalid_parameter_handler, pure_call_handler,
  }

  -- The constructor's object has the handlers that the process had before.
  new_dump-saves :
      (func : ℕ) (w : W)
      → ((new_dump env func w).0.pre_iph ≡ laws.invalid_parameter w)
        × ((new_dump env func w).0.pre_pch ≡ laws.purecall w)
  unfolding new_dump
  new_dump-saves func w = (
    laws.set_invalid_parameter-old _ w,
    laws.set_purecall-old _ _ ∙ laws.set_invalid_parameter-other _ w,
  )

  un_set-restores :
      (d : WinMiniDump) (w : W)
      → (laws.invalid_parameter (un_set_invalid_handle env d w) ≡ d.pre_iph)
        × (laws.purecall (un_set_invalid_handle env d w) ≡ d.pre_pch)
  unfolding un_set_invalid_handle
  un_set-restores d w =
      (laws.set_purecall-other _ _ ∙ laws.set_invalid_parameter-new _ w, laws.set_purecall-new _ _)

  -- Where `_pWinDump` is NULL, `StopCrashDump` behind a `StartCrashDump` returns with the
  -- invalid-parameter and pure-call handlers that the process had before, and the object is gone.
  -- The laws say how the C runtime sets handlers.
  pub start_stop-restores :
      (func : ℕ) (s : Crash W)
      → s.win_dump ≡ none
      → Ends
          (λ _ u.
            (laws.invalid_parameter u.world ≡ laws.invalid_parameter s.world)
            × (laws.purecall u.world ≡ laws.purecall s.world)
            × (u.objects (allocate s.world).0 ≡ none))
          ((start_crash_dump env (some func) >>= λ _. stop_crash_dump env) s)
  start_stop-restores func s fresh =
      let memory = allocate s.world in
      let made = new_dump env func memory.1 in
      let saved = new_dump-saves func memory.1 in
      let restored = un_set-restores made.0 made.1 in
      let alive = store-same memory.0 (some made.0) s.objects in
      rw
        (
          start_crash_dump-first env func s fresh,
          stop_crash_dump-deletes env memory.0 made.0 (started env func s) refl alive,
        )
        (
          restored.0 ∙ saved.0 ∙ laws.allocate-invalid_parameter s.world,
          restored.1 ∙ saved.1 ∙ laws.allocate-purecall s.world,
          store-same memory.0 none (store memory.0 (some made.0) s.objects),
        )

module _ {W : Type 0} (env : DumpEnv W) where
  open env use {create_file, write_dump}

  -- The dump of a crash in the world `w` is written: its file is created, and MiniDumpWriteDump does
  -- not return FALSE.
  abbrev pub IsDumped : W → Type 0
  IsDumped w =
      let file = create_file (dump_path env w) w in
      (h : ℕ) × (file.0 ≡ some h) × ((write_dump h file.1).0 ≡ true)

  -- No file is created, or MiniDumpWriteDump returns FALSE.
  abbrev pub IsLost : W → Type 0
  IsLost w =
      let file = create_file (dump_path env w) w in
      (file.0 ≡ none) ⊎ ((h : ℕ) × (file.0 ≡ some h) × ((write_dump h file.1).0 ≡ false))
