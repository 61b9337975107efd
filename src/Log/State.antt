-- ===== src/Log/State.antt =====
-- The static variables of LogModule/LogModule.cpp, the allocated blocks and the world.
use winservice.Base.{
  ℕ, ◌+◌, ◌-◌, Bool, ℤ, Text, Buffer, Option, none, some, List, [], ◌∷◌, ◌==◌, if◌then◌else◌, leb,
  length, ok, crash, Cmd, modify, c_string,
}

-- A value of type `LogFunc` that is not NULL.
pub data Handler : Type 0 where
  def_log : Handler
  user_log : ℕ → Handler

pub record Globals (W : Type 0) : Type 0 where
  pub log_size : ℤ
  pub log_num : ℤ
  pub log : Option Handler
  pub log_dir : Buffer
  pub log_path : Buffer
  pub log_index : ℤ
  pub config_path : Buffer
  pub log_name : Buffer
  -- How often the running thread has entered the critical section; `none` before `MUTEX_INIT`.
  pub mutex : Option ℕ
  pub test : ℤ
  pub initialized : Bool
  -- The blocks that are allocated and not freed, without those of a tree that a document owns.
  pub live : List ℕ
  pub world : W

-- `MAX_PATH`, `FORM_SIZE`, `TIME_LEN` and `LOG_BUF_SIZE`
abbrev pub max_path : ℕ
max_path = 260

abbrev pub form_size : ℕ
form_size = 4096

abbrev pub time_len : ℕ
time_len = 128

abbrev pub log_buf_size : ℕ
log_buf_size = 2048

abbrev pub backslash : ℕ
backslash = 92

abbrev pub erase : ℕ → List ℕ → List ℕ
erase p [] = []
erase p (q ∷ qs) = if p == q then qs else q ∷ erase p qs

abbrev pub LogCmd : Type 0 → Type 0 → Type 0
LogCmd W A = Cmd (Globals W) A

module _ {W : Type 0} where
  -- `MUTEX_INIT`, `MUTEX_LOCK` and `MUTEX_UNLOCK`. To enter a critical section that was not
  -- initialised is undefined.
  abbrev pub mutex_init : LogCmd W (Unit {0})
  mutex_init = modify λ s. record s { mutex = some 0 }

  abbrev pub mutex_lock : LogCmd W (Unit {0})
  mutex_lock s = elim s.mutex [
    | none ↦ crash s
    | some n ↦ ok tt (record s { mutex = some (n + 1) })
  ]

  abbrev pub mutex_unlock : LogCmd W (Unit {0})
  mutex_unlock s = elim s.mutex [
    | none ↦ crash s
    | some n ↦ ok tt (record s { mutex = some (n - 1) })
  ]

  abbrev pub free : ℕ → LogCmd W (Unit {0})
  free p = modify λ s. record s { live = erase p s.live }

  -- The string in an array: a read of one that has no NUL runs past its end.
  abbrev pub read_string : Buffer → LogCmd W Text
  read_string b s = elim (c_string b) [ none ↦ crash s | some t ↦ ok t s ]

  -- What a call of a bounded C function gives, `none` being the invalid-parameter handler.
  abbrev pub or_abort : {A : Type 0} → Option A → LogCmd W A
  or_abort none s = crash s
  or_abort (some a) s = ok a s

  -- `sprintf_s` into an array on the stack or the heap, which is read only as a string.
  abbrev pub print_text : ℕ → Text → LogCmd W Text
  print_text size t s = if leb size (length t) then crash s else ok t s
