-- ===== src/Log/DocumentTests.antt =====
-- The theorems on the configuration at two documents, with the "Log" element below the root element
-- and below the module's own element.
use native.Mathlib.Decide.{ℕ_discrete}
use winservice.Base.{
  ℕ, ◌≡◌, refl, ◌⊎◌, Bool, true, false, pos, Text, codes, c_string, tokens, text_eq, Option, none,
  some, List, [], ◌∷◌, ◌++◌, replicate, if◌then◌else◌, ok, Ends, arith, ◌==◌,
}
use winservice.Base.Strings.{text_eq_refl}
use winservice.Log.State.{Globals, backslash}
use winservice.Log.Machine.{Machine, Dom, Node, machine_env}
use winservice.Log.Config.{find_setting, get_log_current_index}
use winservice.Log.Config.Search.{IsFirst, log_entries, find_setting-IsFirst}
use winservice.Log.Module.{save_log_index, unload_log_module}
use winservice.Log.Module.Index.{IsDom, any_log}
use winservice.Log.Module.RoundTrip.{IsTree, save_log_index-read, unload_log_module-unsaved}
use winservice.Log.Directory.{create_deep_directory}
use winservice.Log.Directory.Made.{
  Refused, IsFileSystem, Exist, levels, create_deep_directory-makes,
}

abbrev node : Text → Option Text → List ℕ → Node
node n t k = record { name = n; text = t; kids = k }

-- 0 is the root element, 1 the module's, 2 its "Log", 3 and 4 the settings.
abbrev nodes : ℕ → Node
nodes i =
    if i == 0
    then node (codes "Config") none (1 ∷ [])
    else if i == 1
    then node (codes "agent") none (2 ∷ [])
    else if i == 2
    then node (codes "Log") none (3 ∷ 4 ∷ [])
    else if i == 3
    then node (codes "Size") (some (codes "4")) []
    else node (codes "Num") (some (codes "3")) []

abbrev document : Dom
document = record { root = some 0; fresh = 9; node = nodes }

machine-IsDom : (d : Dom) → IsDom machine_env d
machine-IsDom d = record {
  same = ℕ_discrete;
  set_value = λ x e t. ground arith;
  set_children = λ x e t ne. ground arith;
  set_get_text = λ x t. ground arith;
  add_name = λ p n t. ground arith;
  add_value = λ p e n t ne. ground arith;
  add_self = λ p n t ne. ground arith;
  add_children = λ p e n t ne nf. ground arith;
  add_get_text = λ p n t. ground arith;
}

document-IsTree : IsTree machine_env document 1
document-IsTree = record { fresh_root = omega arith; below = omega arith }

abbrev machine_with : Dom → Machine
machine_with d = record { files = []; printed = []; blocks = 1; config = some d }

abbrev config : Text
config = codes "C:/agent\\configure.xml"

abbrev state : Globals Machine
state = record {
  log_size = pos 0;
  log_num = pos 3;
  log = none;
  log_dir = replicate 260 0;
  log_path = replicate 260 0;
  log_index = pos 2;
  config_path = config ++ replicate 10 0;
  log_name = replicate 260 0;
  mutex = some 0;
  test = pos 0;
  initialized = true;
  live = [];
  world = machine_with document;
}

find_setting-IsFirst_example :
    IsFirst machine_env document
      (codes "Num")
      (log_entries machine_env document (2 ∷ []))
      (find_setting machine_env document (codes "Num") 1)
find_setting-IsFirst_example = find_setting-IsFirst machine_env document (codes "Num") 1

save_log_index-read_example :
    get_log_current_index machine_env (save_log_index machine_env (pos 2) 1 document) 1 state
    ≡ ok 0 (record state { log_index = pos 2 })
unfolding any_log text_eq
save_log_index-read_example =
    save_log_index-read machine_env document 1 (pos 2) state (machine-IsDom document)
      document-IsTree refl (omega arith)

unload_log_module-unsaved_example :
    unload_log_module machine_env state
    ≡ ok 0 (record state { live = 900 ∷ []; world = record (state.world) { blocks = 2 } })
unfolding c_string any_log text_eq
unload_log_module-unsaved_example =
    unload_log_module-unsaved machine_env 0 config document 0 state refl refl refl refl refl

machine-IsFileSystem : IsFileSystem machine_env
machine-IsFileSystem = record {
  made = λ p w e. rw (text_eq_refl p);
  kept = λ p q w e. ground arith;
}

abbrev deep : Text
deep = codes "C:\\logs\\agent"

create_deep_directory-makes_example :
    Ends
      (λ made u.
        ((made ≡ true)
          × (◌≡◌ {A = Bool} false true
              ⊎ Exist machine_env (levels [] (tokens backslash deep)) u.world))
        ⊎ ((made ≡ false) × Refused machine_env (levels [] (tokens backslash deep)) u.world))
      (create_deep_directory machine_env deep state)
create_deep_directory-makes_example =
    create_deep_directory-makes machine_env deep state machine-IsFileSystem refl (omega arith)
      (omega arith)
