-- ===== src/ListEntry.antt =====
-- The functions of inc/scsiboot.h on circular lists. An entry is an address, its two fields a word each;
-- an access to an address that is no entry is a fault.
pub mod Chain
pub mod Splice
mod Tests
use winservice.Base.{
  ℕ, Bool, true, false, Option, none, some, ok, crash, Cmd, ◌>>=◌, ◌>>◌, pure, ◌==◌, if◌then◌else◌,
}

-- `Flink` and `Blink` of the entries.
pub record Memory : Type 0 where
  pub flink : ℕ → Option ℕ
  pub blink : ℕ → Option ℕ

-- The macros of the driver kit.
pub record ListMacros : Type 0 where
  pub is_list_empty : ℕ → Memory → Bool
  pub initialize_list_head : ℕ → Memory → Memory

abbrev pub store : (ℕ → Option ℕ) → ℕ → ℕ → ℕ → Option ℕ
store f p q z = if z == p then some q else f z

abbrev pub reading : Option ℕ → Cmd Memory ℕ
reading none m = crash m
reading (some q) m = ok q m

abbrev pub get_flink : ℕ → Cmd Memory ℕ
get_flink p m = reading (m.flink p) m

abbrev pub get_blink : ℕ → Cmd Memory ℕ
get_blink p m = reading (m.blink p) m

abbrev pub writing : Option ℕ → Memory → Cmd Memory (Unit {0})
writing none u m = crash m
writing (some q) u m = ok tt u

abbrev pub set_flink : ℕ → ℕ → Cmd Memory (Unit {0})
set_flink p q m = writing (m.flink p) (record m { flink = store m.flink p q }) m

abbrev pub set_blink : ℕ → ℕ → Cmd Memory (Unit {0})
set_blink p q m = writing (m.blink p) (record m { blink = store m.blink p q }) m

-- The list with entries that are spliced in, one assignment after the other.
unfoldable pub splice_entries : (list sublist : ℕ) → Cmd Memory (Unit {0})
splice_entries list sublist = do
  sub_first ← get_flink sublist
  sub_last ← get_blink sublist
  before ← get_blink list
  set_flink before sub_first
  tail ← get_blink list
  set_blink sub_first tail
  set_blink list sub_last
  set_flink sub_last list

module _ (macros : ListMacros) where
  open macros use {is_list_empty, initialize_list_head}

  unfoldable pub xm_list_splice : (list sublist : ℕ) → Cmd Memory (Unit {0})
  unfolding splice_entries
  xm_list_splice list sublist m =
      if is_list_empty sublist m then ok tt m else splice_entries list sublist m

  abbrev pub initialize : ℕ → Cmd Memory (Unit {0})
  initialize p m = ok tt (initialize_list_head p m)

  unfoldable pub xm_list_transplant : (dest src : ℕ) → Cmd Memory (Unit {0})
  unfolding xm_list_splice
  xm_list_transplant dest src = do initialize dest; xm_list_splice dest src; initialize src
