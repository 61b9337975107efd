-- ===== src/Log/Machine.antt =====
-- A small machine for tests: files with their sizes, an allocator that counts, a fixed clock, and a
-- document whose elements are numbers.
use winservice.Base.{
  ℕ, ◌+◌, ◌==◌, Bool, true, pos, Text, codes, text_eq, Option, none, some, is_some, List, [], ◌∷◌,
  ◌++◌, if◌then◌else◌,
}
use winservice.Log.Env.{SystemTime, LogEnv}

pub record Node : Type 0 where
  pub name : Text
  pub text : Option Text
  pub kids : List ℕ

pub record Dom : Type 0 where
  pub root : Option ℕ
  pub fresh : ℕ
  pub node : ℕ → Node

pub record Machine : Type 0 where
  pub files : List (Text × ℕ)
  pub printed : List (Text × Text)
  pub blocks : ℕ
  pub config : Option Dom

abbrev pub size_of : Text → List (Text × ℕ) → Option ℕ
size_of p [] = none
size_of p ((q, n) ∷ fs) = if text_eq p q then some n else size_of p fs

abbrev pub remove : Text → List (Text × ℕ) → List (Text × ℕ)
remove p [] = []
remove p ((q, n) ∷ fs) = if text_eq p q then remove p fs else (q, n) ∷ remove p fs

abbrev update : ℕ → Node → (ℕ → Node) → ℕ → Node
update i n f j = if j == i then n else f j

abbrev pub dom_clear : ℕ → Dom → Dom
dom_clear e d =
    let n = d.node e in record d { node = update e (record n { text = none; kids = [] }) d.node }

abbrev pub dom_link_text : ℕ → Text → Dom → Dom
dom_link_text e t d =
    let n = d.node e in record d { node = update e (record n { text = some t }) d.node }

abbrev pub dom_new : Text → Dom → ℕ × Dom
dom_new name d = (
  d.fresh,
  record d {
    fresh = d.fresh + 1;
    node = update d.fresh (record { name = name; text = none; kids = [] }) d.node;
  },
)

abbrev pub dom_link_child : ℕ → ℕ → Dom → Dom
dom_link_child p e d =
    let n = d.node p in record d { node = update p (record n { kids = n.kids ++ e ∷ [] }) d.node }

abbrev pub noon : SystemTime
noon = record {
  year = 2016;
  month = 5;
  day = 9;
  hour = 12;
  minute = 0;
  second = 7;
  milliseconds = 31;
}

-- The argument says whether files open for appending.
abbrev pub machine : Bool → LogEnv Machine Dom ℕ
machine opens = record {
  module_file_name = λ w. some (codes "C:/agent/agent.exe");
  last_error = λ w. 5;
  remove_file_spec = λ p. codes "C:/agent";
  path_exists = λ p w. is_some (size_of p w.files);
  stat = λ p w. elim (size_of p w.files) [ none ↦ none | some n ↦ some (pos n) ];
  delete_file = λ p w. record w { files = remove p w.files };
  create_directory = λ p w. (true, record w { files = (p, 0) ∷ w.files });
  open_append = λ p w. (opens, w);
  print_file = λ p t w. record w { printed = (p, t) ∷ w.printed };
  close_file = λ p w. w;
  print_out = λ t w. record w { printed = ([], t) ∷ w.printed };
  local_time = λ w. noon;
  malloc = λ n w. (some w.blocks, record w { blocks = w.blocks + 1 });
  call_user = λ f prefix t w. record w { printed = (prefix, t) ∷ w.printed };
  new_document = λ p w. (w.blocks, record w { blocks = w.blocks + 1 });
  tree_blocks = λ d. 900 ∷ [];
  failed_blocks = λ p w. [];
  load_file = λ p w. w.config;
  save_file = λ d p w. record w { config = some d };
  root_element = λ d. d.root;
  child_elements = λ d e. (d.node e).kids;
  value = λ d e. (d.node e).name;
  get_text = λ d e. (d.node e).text;
  clear = dom_clear;
  link_text = dom_link_text;
  new_element = dom_new;
  link_child = dom_link_child;
}

abbrev pub machine_env : LogEnv Machine Dom ℕ
machine_env = machine true
