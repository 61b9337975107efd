-- ===== src/Minidump/Dump.antt =====
-- The class `WinMiniDump` of Minidump/CMinidump.cpp, and `StartCrashDump` and `StopCrashDump` of
-- Minidump/main.cpp.
use winservice.Base.{
  ℕ, ◌==◌, Bool, true, false, Text, codes, ◌++◌, Option, none, some, length, leb, if◌then◌else◌,
  Cmd, ok, pure, abort, get, modify, holding, minus, not, ◌>>=◌, ◌>>◌,
}
use winservice.Minidump.Env.{DumpEnv}
use winservice.Minidump.Patch.{new_jump}

-- The members of an object, NULL where they were not set.
pub record WinMiniDump : Type 0 where
  pub pre_iph : Option ℕ
  pub pre_pch : Option ℕ
  pub log_func : Option ℕ
  pub pre_filter : Option ℕ

-- `_pWinDump`, the objects that are allocated by their addresses, the open handles and the world.
pub record Crash (W : Type 0) : Type 0 where
  pub win_dump : Option ℕ
  pub objects : ℕ → Option WinMiniDump
  pub handles : ℕ → ℕ
  pub world : W

abbrev pub CrashCmd : Type 0 → Type 0 → Type 0
CrashCmd W A = Cmd (Crash W) A

abbrev pub page_readwrite : ℕ
page_readwrite = 4

abbrev pub max_path : ℕ
max_path = 260

-- `EXCEPTION_CONTINUE_SEARCH` and `EXCEPTION_EXECUTE_HANDLER`
abbrev pub continue_search : ℕ
continue_search = 0

abbrev pub execute_handler : ℕ
execute_handler = 1

abbrev pub store : ℕ → Option WinMiniDump → (ℕ → Option WinMiniDump) → ℕ → Option WinMiniDump
store p o f a = if a == p then o else f a

module _ {W : Type 0} (env : DumpEnv W) where
  open env use {
    invalid_parameter_handler, pure_call_handler, exception_filter, temp_set_filter,
    set_invalid_parameter, set_purecall, set_filter, load_kernel32, filter_entry, protect,
    write_memory, module_path, split_name, remove_file_spec, create_file, write_dump, close_handle,
    allocate,
  }

  -- The calls on the world, with the object as an argument and a result.
  unfoldable pub set_invalid_handle : WinMiniDump → W → WinMiniDump × W
  set_invalid_handle d w =
      let iph = set_invalid_parameter (some invalid_parameter_handler) w in
      let pch = set_purecall (some pure_call_handler) iph.1 in
      (record d { pre_iph = iph.0; pre_pch = pch.0 }, pch.1)

  unfoldable pub un_set_invalid_handle : WinMiniDump → W → W
  un_set_invalid_handle d w = (set_purecall d.pre_pch (set_invalid_parameter d.pre_iph w).1).1

  unfoldable pub prevent_set_filter : W → Bool × W
  prevent_set_filter w =
      let kernel32 = load_kernel32 w in
      elim kernel32.0 [
        | none ↦ (false, kernel32.1)
        | some module_handle ↦ elim (filter_entry module_handle kernel32.1) [
          | none ↦ (false, kernel32.1)
          | some entry ↦
              let opened = protect entry 5 page_readwrite kernel32.1 in
              let written = write_memory entry (new_jump entry temp_set_filter) opened.1 in
              (written.0, (protect entry 5 opened.0 written.1).1)
        ]
      ]

  unfoldable pub run_dump : WinMiniDump → W → WinMiniDump × W
  unfolding prevent_set_filter
  run_dump d w =
      let old = set_filter exception_filter w in
      (record d { pre_filter = old.0 }, (prevent_set_filter old.1).1)

  -- `WinMiniDump(MiniDumpLog logFunc)`; `m_preFilter` is set by `Run`.
  unfoldable pub new_dump : ℕ → W → WinMiniDump × W
  unfolding set_invalid_handle run_dump
  new_dump func w =
      let handled =
        set_invalid_handle
          (record { pre_iph = none; pre_pch = none; log_func = some func; pre_filter = none }) w in
      run_dump handled.0 handled.1

  unfoldable pub start_crash_dump : Option ℕ → CrashCmd W Bool
  unfolding new_dump
  start_crash_dump none = pure false
  start_crash_dump (some func) = do
    s ← get
    elim s.win_dump [
      | some p ↦ pure false
      | none ↦
          let memory = allocate s.world in
          let made = new_dump func memory.1 in
          (do
            modify (λ s. record s {
              win_dump = some memory.0;
              objects = store memory.0 (some made.0) s.objects;
              world = made.1;
            })
            pure true)
    ]

  -- `delete` of an address that is not an object's is a fault. `Stop` does nothing.
  unfoldable pub stop_crash_dump : CrashCmd W (Unit {0})
  unfolding un_set_invalid_handle
  stop_crash_dump = do
    s ← get
    elim s.win_dump [
      | none ↦ pure tt
      | some p ↦ elim (s.objects p) [
        | none ↦ abort
        | some d ↦ modify (λ s. record s {
          objects = store p none s.objects;
          world = un_set_invalid_handle d s.world;
        })
      ]
    ]

  -- `"%s\\%s.dmp"`
  unfoldable pub dump_path : W → Text
  dump_path w =
      let path = module_path w in
      remove_file_spec path ++ (codes "\\" ++ (split_name path ++ codes ".dmp"))

  -- A handle that `CreateFileA` returns is open until `CloseHandle`.
  abbrev pub create_dump_file : Text → CrashCmd W (Option ℕ)
  create_dump_file path s =
      let r = create_file path s.world in
      ok r.0 (record s { handles = holding r.0 s.handles; world = r.1 })

  abbrev pub write_dump_file : ℕ → CrashCmd W Bool
  write_dump_file h s = let r = write_dump h s.world in ok r.0 (record s { world = r.1 })

  abbrev pub close_dump_file : ℕ → CrashCmd W (Unit {0})
  close_dump_file h =
      modify (λ s. record s { handles = minus h s.handles; world = close_handle h s.world })

  -- `sprintf_s` of the name: one that does not fit ends the process in the invalid-parameter handler.
  abbrev pub print_dump_path : Text → CrashCmd W (Unit {0})
  print_dump_path path = if leb max_path (length path) then abort else pure tt

  unfoldable pub unhandled_exception_filter : CrashCmd W ℕ
  unfolding dump_path
  unhandled_exception_filter = do
    s ← get
    print_dump_path (dump_path s.world)
    dump_file ← create_dump_file (dump_path s.world)
    elim dump_file [
      | none ↦ pure continue_search
      | some h ↦ (do
        written ← write_dump_file h
        if not written
            then (do close_dump_file h; pure continue_search)
            else (do close_dump_file h; pure execute_handler))
    ]
