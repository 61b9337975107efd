-- ===== src/Minidump/Tests.antt =====
-- The theorems on the crash handler at a machine that keeps the two handlers, and a run of the patch.
use winservice.Base.{
  Text, ℕ, ◌≡◌, refl, ◌>>=◌, true, codes, Option, none, some, [], ◌∷◌, Ends, Crashes, arith,
  replicate,
}
use winservice.Minidump.Env.{DumpEnv}
use winservice.Minidump.Patch.{JumpsTo, new_jump, new_jump-JumpsTo}
use winservice.Minidump.Dump.{Crash, start_crash_dump, stop_crash_dump}
use winservice.Base.Strings.{NoNul}
use winservice.Minidump.Exception.{
  WinException, new_exception, copy_exception, Reports, new_copy-Reports,
}
use winservice.Minidump.Session.{HandlerLaws, start_stop-restores, stop_twice-Crashes}

record Machine : Type 0 where
  iph : Option ℕ
  pch : Option ℕ

abbrev machine_env : DumpEnv Machine
machine_env = record {
  invalid_parameter_handler = 11;
  pure_call_handler = 12;
  exception_filter = 13;
  temp_set_filter = 0x401000;
  set_invalid_parameter = λ h w. (w.iph, record w { iph = h });
  set_purecall = λ h w. (w.pch, record w { pch = h });
  set_filter = λ _ w. (none, w);
  load_kernel32 = λ w. (some 1, w);
  filter_entry = λ _ _. some 0x7C8449FD;
  protect = λ _ _ _ w. (0x20, w);
  write_memory = λ _ _ w. (true, w);
  module_path = λ _. codes "C:\\tools\\agent.exe";
  split_name = λ _. codes "agent";
  remove_file_spec = λ _. codes "C:\\tools";
  create_file = λ _ w. (some 5, w);
  write_dump = λ _ w. (true, w);
  close_handle = λ _ w. w;
  allocate = λ w. (0x5000, w);
  call_log = λ _ _ _ w. w;
}

handler_laws : HandlerLaws machine_env
handler_laws = record {
  invalid_parameter = λ w. w.iph;
  purecall = λ w. w.pch;
  set_invalid_parameter-old = λ _ _. refl;
  set_invalid_parameter-new = λ _ _. refl;
  set_invalid_parameter-other = λ _ _. refl;
  set_purecall-old = λ _ _. refl;
  set_purecall-new = λ _ _. refl;
  set_purecall-other = λ _ _. refl;
  allocate-invalid_parameter = λ _. refl;
  allocate-purecall = λ _. refl;
}

abbrev quiet : Crash Machine
quiet = record {
  win_dump = none;
  objects = λ _. none;
  handles = λ _. 0;
  world = record { iph = some 3; pch = none };
}

abbrev watched : Crash Machine
watched = record quiet { win_dump = some 0x5000 }

start_stop-restores_example :
    Ends
      (λ _ u. (u.world.iph ≡ some 3) × (u.world.pch ≡ none) × (u.objects 0x5000 ≡ none))
      ((start_crash_dump machine_env (some 77) >>= λ _. stop_crash_dump machine_env) quiet)
unfolding handler_laws
start_stop-restores_example = start_stop-restores machine_env handler_laws 77 quiet refl

stopped_twice :
    Crashes
      (λ _. Unit {0})
      ((stop_crash_dump machine_env >>= λ _. stop_crash_dump machine_env) watched)
stopped_twice = stop_twice-Crashes machine_env 0x5000 watched refl

new_jump-JumpsTo_example : JumpsTo 0x7C8449FD (new_jump 0x7C8449FD 0x401000) 0x401000
new_jump-JumpsTo_example = new_jump-JumpsTo 0x7C8449FD 0x401000 (omega arith)

new_jump-backwards : new_jump 0x7C8449FD 0x401000 ≡ 0xE9 ∷ 0xFE ∷ 0xC5 ∷ 0xBB ∷ 0x83 ∷ []
unfolding new_jump
new_jump-backwards = refl

abbrev file_name : Text
file_name = codes "a.cpp"

abbrev failure : Text
failure = codes "no"

file_name-NoNul : NoNul file_name
file_name-NoNul = (ground arith, (ground arith, (ground arith, (ground arith, (ground arith, tt)))))

failure-NoNul : NoNul failure
failure-NoNul = (ground arith, (ground arith, tt))

copied_report :
    (e : WinException) × (copy : WinException) × (new_exception
        (replicate 260 7)
        5
        file_name
        41
        failure
      ≡ some e)
    × (copy_exception e ≡ some copy)
    × Reports e 5 file_name 41 failure
    × Reports copy 5 file_name 41 failure
copied_report =
    new_copy-Reports (replicate 260 7) 5 file_name 41 failure file_name-NoNul failure-NoNul
      (omega arith) (omega arith)
