-- ===== src/Log/Tests.antt =====
-- The theorems on the choice of a file and on `defLogFunc` at a machine whose first log file is
-- full, and runs of the same functions.
use winservice.Base.{
  ℕ, ◌≡◌, refl, Bool, true, false, pos, ◌≤ℤ◌, ◌<ℤ◌, int_suc, Text, codes, c_string, none, some,
  List, [], ◌∷◌, ◌++◌, replicate, if◌then◌else◌, Ends, Outcome, Crashes, arith, text_eq, sprintf_s,
  ok, crash, length-replicate,
}
use winservice.Base.Decimal.{show_int, show_padded}
use winservice.Log.State.{Globals, def_log}
use winservice.Log.Machine.{Machine, machine, machine_env, size_of, remove}
use winservice.Log.Path.{log_file, set_log_path}
use winservice.Log.Path.Rotation.{IsReady, is_full, next_index, current_file}
use winservice.Log.Path.Choice.{
  SameConfig, set_log_path-rotates, set_log_path-range, set_log_path-room,
}
use winservice.Log.Write.{final_text, append_message, allocate_and_append, def_log_func}
use winservice.Log.Write.Delivery.{
  IsRunning, IsPrinted, def_log_func-appends, def_log_func-closed, def_log_func-long,
}
use winservice.Log.Write.Mutex.{def_log_func-mutex}
use winservice.Log.Write.Journal.{IsJournal, IsLogging}
use winservice.Log.Session.{LogCall, load_call, info_call, error_call, run_log_calls}
use winservice.Log.Session.Journal.{Written, run_log_calls-Written}

abbrev dir : Text
dir = codes "D:/logs"

abbrev name : Text
name = codes "agent"

abbrev array : Text → Text
array t = t ++ replicate 240 0

-- Three files of a megabyte at most; the first is full.
abbrev disk : Machine
disk = record {
  files = (codes "D:/logs\\agent_1.txt", 2000000) ∷ (codes "D:/logs\\agent_2.txt", 1048576) ∷ [];
  printed = [];
  blocks = 1;
  config = none;
}

abbrev globals : Machine → Globals Machine
globals w = record {
  log_size = pos 1048576;
  log_num = pos 3;
  log = some def_log;
  log_dir = array dir;
  log_path = replicate 260 0;
  log_index = pos 0;
  config_path = [];
  log_name = array name;
  mutex = some 0;
  test = pos 0;
  initialized = true;
  live = [];
  world = w;
}

globals-IsReady : (w : Machine) → IsReady dir name (globals w)
unfolding c_string
globals-IsReady w = record {
  dir_string = refl;
  name_string = refl;
  fits = omega arith;
  path_array = refl;
  index_int = (omega arith, omega arith);
  num_set = refl;
}

set_log_path-rotates_example :
    Ends
      (λ r t.
        (r ≡ 0)
        × (t.log_index ≡ (
            if is_full machine_env (current_file machine_env dir name (globals disk)) (globals disk)
            then next_index (pos 3) (pos 0)
            else pos 0))
        × (c_string t.log_path ≡ some (log_file dir name (int_suc t.log_index)))
        × IsReady dir name t
        × SameConfig (globals disk) t)
      (set_log_path machine_env (globals disk))
set_log_path-rotates_example =
    set_log_path-rotates machine_env dir name (globals disk) (globals-IsReady disk)

first_index_kept :
    Ends
      (λ _ t. (pos 0 ≤ℤ t.log_index) × (t.log_index <ℤ t.log_num))
      (set_log_path machine_env (globals disk))
first_index_kept =
    set_log_path-range machine_env dir name (globals disk) (globals-IsReady disk)
      (omega arith, omega arith) (omega arith) (omega arith)

size_of-remove : (p : Text) (fs : List (Text × ℕ)) → size_of p (remove p fs) ≡ none
size_of-remove p [] = refl
size_of-remove p ((q, n) ∷ fs) = ground (arith, size_of-remove p fs)

set_log_path-room_example :
    Ends
      (λ _ t. is_full machine_env (log_file dir name (int_suc t.log_index)) t ≡ false)
      (set_log_path machine_env (globals disk))
set_log_path-room_example =
    set_log_path-room machine_env dir name (globals disk) (globals-IsReady disk)
      (λ p. rw (size_of-remove p disk.files))

pub running : (opens : Bool) → IsRunning (machine opens)
running opens = record { allocates = λ size w. (w.blocks, refl); clock = λ w. omega arith }

abbrev hello : Text
hello = codes "hello"

abbrev info : Text
info = codes "Info"

hello_appended :
    Ends
      (λ _ u.
        (u.mutex ≡ some 0)
        × (u.live ≡ [])
        × IsReady dir name u
        × IsPrinted machine_env info hello (log_file dir name (int_suc u.log_index)) u.world)
      (def_log_func machine_env info hello (globals disk))
hello_appended =
    def_log_func-appends machine_env dir name info hello 0 (globals disk) (running true)
      (globals-IsReady disk) refl (λ p w. refl) (omega arith)

unopened_log :
    Ends
      (λ _ u. (u.mutex ≡ some 0) × ((a : ℕ) × (b : ℕ) × (c : ℕ) × (u.live ≡ c ∷ b ∷ a ∷ [])))
      (def_log_func (machine false) info hello (globals disk))
unopened_log =
    def_log_func-closed (machine false) dir name info hello 0 (globals disk) (running false)
      (globals-IsReady disk) refl (λ p w. refl) (omega arith)

abbrev flood : Text
flood = replicate 2040 b'x'

def_log_func-long_example :
    Crashes (λ u. u.mutex ≡ some 1) (def_log_func machine_env info flood (globals disk))
def_log_func-long_example =
    def_log_func-long machine_env dir name info flood 0 (globals disk) (running true)
      (globals-IsReady disk) refl (omega (arith, length-replicate {A = ℕ} 2040 b'x'))

hello_leaves_mutex :
    Outcome
      (λ _ u. u.mutex ≡ some 0)
      (λ u. u.mutex ≡ some 1)
      (def_log_func machine_env info hello (globals disk))
hello_leaves_mutex = def_log_func-mutex machine_env info hello 0 (globals disk) refl

-- The first file is full, so the message goes to the second.
abbrev second_file : Text
second_file = codes "D:/logs\\agent_2.txt"

written : List (Text × Text)
written = elim (def_log_func machine_env info hello (globals disk)) [
  | ok _ u ↦ u.world.printed
  | crash u ↦ []
]

written_lem : written ≡ (second_file, codes "|Info|2016-05-09  12:00:07.031|: hello\r\n") ∷ []
unfolding written def_log_func set_log_path allocate_and_append append_message c_string show_int
    text_eq sprintf_s final_text log_file int_suc show_padded
written_lem = refl

abbrev session : List LogCall
session = info_call hello ∷ load_call name none ∷ error_call (codes "bye") ∷ []

running-IsLogging : IsLogging machine_env dir name (globals disk)
running-IsLogging = record {
  initialized = refl;
  log = refl;
  mutex = refl;
  ready = globals-IsReady disk;
  num = (omega arith, omega arith);
  low = omega arith;
  high = omega arith;
}

pub printed-IsJournal : IsJournal machine_env (λ w. w.printed)
printed-IsJournal = record {
  printed = λ p t w. refl;
  closed = λ p w. refl;
  opened = λ p w. refl;
  deleted = λ p w. refl;
  created = λ p w. refl;
  allocated = λ n w. refl;
}

run_log_calls-Written_example :
    Ends
      (λ _ u.
        Written machine_env dir name
          (λ w. w.printed)
          ((info, hello) ∷ (codes "Error", codes "bye") ∷ [])
          (globals disk)
          u)
      (run_log_calls machine_env session (globals disk))
run_log_calls-Written_example =
    run_log_calls-Written machine_env dir name (λ w. w.printed) (running true) printed-IsJournal
      (λ p w. refl) session (globals disk) running-IsLogging refl (omega arith, (omega arith, tt))
