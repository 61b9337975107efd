-- ===== src/Log/SessionTests.antt =====
-- Sequences of calls of the library, from the statics that a process starts with, on a machine whose
-- configuration is missing, has no settings or has all of them.
use winservice.Base.{
  ℕ, ℤ, negsuc, int_scale, ◌*◌, ◌<◌, ◌↔◌, true, Text, Ends, ◌==◌, if◌then◌else◌, text_eq, arith,
  ◌≡◌, refl, inl, false, pos, codes, Option, none, some, List, [], ◌∷◌, replicate, ok, crash, Run,
  Outcome, c_string, sprintf_s,
}
use winservice.Log.State.{Globals}
use winservice.Log.Machine.{Machine, Node, Dom, machine_env}
use winservice.Log.Config.{
  find_named, find_setting, get_log_size, get_config_path, init_log_configure,
}
use winservice.Log.Config.Size.{get_log_size-bytes}
use winservice.Base.Decimal.{atoi}
use winservice.Log.Tests.{running, printed-IsJournal}
use winservice.Log.Config.Settings.{HasSettings}
use winservice.Log.Module.Start.{IsFresh}
use winservice.Log.Session.Journal.{Printed, run_log_calls-Printed}
use winservice.Log.Module.{load_log_module}
use winservice.Log.Session.{LogCall, load_call, unload_call, info_call, error_call, run_log_calls}
use winservice.Log.Session.Phase.{Idle, Halted, run_log_calls-Idle}
use winservice.Log.Session.Silent.{load_log_module-silent}

abbrev statics : Option Dom → Globals Machine
statics config = record {
  log_size = pos 0;
  log_num = pos 0;
  log = none;
  log_dir = replicate 260 0;
  log_path = replicate 260 0;
  log_index = pos 0;
  config_path = replicate 260 0;
  log_name = replicate 260 0;
  mutex = none;
  test = pos 0;
  initialized = false;
  live = [];
  world = record { files = []; printed = []; blocks = 1; config = config };
}

-- A root element without an element of the module's name.
abbrev bare : Dom
bare = record {
  root = some 0;
  fresh = 1;
  node = λ i. record { name = codes "Config"; text = none; kids = [] };
}

abbrev calls : List LogCall
calls =
    info_call (codes "early")
    ∷ load_call (codes "agent") none
    ∷ error_call (codes "late")
    ∷ load_call (codes "agent") none
    ∷ unload_call
    ∷ []

run_log_calls-Idle_example :
    Outcome (λ _. Idle) Halted (run_log_calls machine_env calls (statics (some bare)))
run_log_calls-Idle_example =
    run_log_calls-Idle machine_env calls (statics (some bare)) (inl (refl, refl, refl))

abbrev state_of : {A : Type 0} → Run (Globals Machine) A → Globals Machine
state_of (ok a u) = u
state_of (crash u) = u

abbrev unread : Globals Machine
unread = state_of (load_log_module machine_env (codes "agent") none (statics none))

abbrev more : List LogCall
more = info_call (codes "late") ∷ load_call (codes "agent") none ∷ []

load_log_module-silent_example :
    (run_log_calls machine_env more unread ≡ ok tt unread)
    × (load_log_module machine_env (codes "agent") none unread ≡ ok 2 unread)
unfolding load_log_module get_config_path sprintf_s init_log_configure c_string
load_log_module-silent_example =
    load_log_module-silent machine_env (codes "agent") (codes "agent") none none more (statics none)
      unread refl refl refl refl

abbrev leaf : Text → Text → Node
leaf n t = record { name = n; text = some t; kids = [] }

abbrev branch : Text → List ℕ → Node
branch n k = record { name = n; text = none; kids = k }

-- All settings of the module "agent".
abbrev nodes : ℕ → Node
nodes i =
    if i == 0
    then branch (codes "Config") (1 ∷ [])
    else if i == 1
    then branch (codes "agent") (2 ∷ [])
    else if i == 2
    then branch (codes "Log") (3 ∷ 4 ∷ 5 ∷ 6 ∷ 7 ∷ [])
    else if i == 3
    then leaf (codes "Size") (codes "4")
    else if i == 4
    then leaf (codes "Num") (codes "3")
    else if i == 5
    then leaf (codes "Dir") (codes "D:/logs")
    else if i == 6
    then leaf (codes "Index") (codes "0")
    else leaf (codes "Name") (codes "guest")

abbrev full : Dom
full = record { root = some 0; fresh = 8; node = nodes }

abbrev start : Globals Machine
start =
    let s = statics (some full) in
    record s { world = record (s.world) { files = (codes "D:/logs", 0) ∷ [] } }

full-HasSettings :
    HasSettings machine_env full 1
      (codes "D:/logs")
      (codes "guest")
      (codes "4")
      (codes "3")
      (codes "0")
unfolding find_setting text_eq atoi
full-HasSettings = record {
  size_text = (3, refl, refl);
  num_text = (4, refl, refl);
  dir_text = (5, refl, refl);
  index_text = (6, refl, refl);
  name_text = (7, refl, refl);
  fits = omega arith;
  dir_string = ground arith;
  file_string = ground arith;
  num_int = (omega arith, omega arith);
  low = omega arith;
  high = omega arith;
}

start-IsFresh :
    IsFresh machine_env full 1
      (codes "D:/logs")
      (codes "guest")
      (codes "4")
      (codes "3")
      (codes "0")
      (codes "C:/agent/agent.exe")
      (codes "C:/agent\\configure.xml")
      (codes "agent")
      start
unfolding text_eq find_named
start-IsFresh = record {
  unloaded = refl;
  zero_dir = refl;
  zero_name = refl;
  zero_path = refl;
  exe_path = refl;
  config_path = refl;
  config_string = ground arith;
  config_fits = omega arith;
  document = record { root = 0; loaded = refl; rooted = refl; named = refl };
  there = refl;
}

run_log_calls-Printed_example :
    Ends
      (λ _ u.
        (u.live ≡ 900 ∷ [])
        × Printed machine_env
            (codes "D:/logs")
            (codes "guest")
            (λ w. w.printed)
            (atoi (codes "3"))
            ((codes "Info", codes "late") ∷ [])
            []
            u.world.printed)
      (run_log_calls machine_env (load_call (codes "agent") none ∷ more) start)
run_log_calls-Printed_example =
    run_log_calls-Printed machine_env (codes "D:/logs") (codes "guest") (λ w. w.printed)
      (running true) printed-IsJournal (λ p w. refl) full 1 (codes "4") (codes "3") (codes "0")
      (codes "C:/agent/agent.exe") (codes "C:/agent\\configure.xml") (codes "agent") more start
      full-HasSettings start-IsFresh refl (omega arith, tt)

-- The limit of the module "agent".
get_log_size-bytes_example :
    Ends
      (λ code u. (code ≡ 0) × ((u.log_size ≡ pos (4 * 1048576)) ↔ (4 < 2048)))
      (get_log_size machine_env full 1 start)
unfolding find_setting text_eq atoi
get_log_size-bytes_example =
    get_log_size-bytes machine_env full 1 (codes "4") 4 start full-HasSettings.size_text refl

-- With 2048 megabytes the limit is negative.
abbrev large : ℤ
large = int_scale 1024 (int_scale 1024 (atoi (codes "2048")))

large_limit : large ≡ negsuc 2147483647
unfolding int_scale atoi
large_limit = refl
