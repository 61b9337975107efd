-- ===== src/Log/Path/Rotation.antt =====
-- Which file `setLogPath` chooses: the rotation over the configured number of files.
use winservice.Base.{
  ◌+◌, ◌-◌, ◌<◌, ◌≡◌, Bool, false, not, ◌&&◌, ℤ, pos, ltb_ℤ, eqb_ℤ, int_suc, IsInt, int_suc-IsInt,
  Text, codes, c_string, some, ◌∷◌, ◌++◌, length, replicate, length-append, if◌then◌else◌, ok,
  arith,
}
use winservice.Base.Decimal.{show_int}
use winservice.Base.Decimal.Laws.{length-show_int, show_int-NoNul}
use winservice.Base.Strings.{NoNul, NoNul-append, printed, sprintf_s-fits}
use winservice.Log.Env.{LogEnv}
use winservice.Log.State.{Globals, max_path}
use winservice.Log.Path.{log_file, get_file_size, print_log_path, next_log_path, set_log_path}

pub length-log_file :
    (dir name : Text) (n : ℤ)
    → IsInt n
    → length dir + length name + 17 < max_path
    → length (log_file dir name n) < max_path
unfolding log_file
length-log_file dir name n h fits = omega (
  arith,
  length-show_int n h,
  length-append dir (92 ∷ (name ++ (95 ∷ (show_int n ++ codes ".txt")))),
  length-append name (95 ∷ (show_int n ++ codes ".txt")),
  length-append (show_int n) (codes ".txt"),
)

pub log_file-NoNul :
    (dir name : Text) (n : ℤ) → NoNul dir → NoNul name → NoNul (log_file dir name n)
unfolding log_file
log_file-NoNul dir name n hd hn = NoNul-append dir _ hd (
  omega arith,
  NoNul-append name _ hn
      (omega arith, NoNul-append (show_int n) _ (show_int-NoNul n) (omega arith)),
)

-- The configuration that a message is logged with: directory and name are terminated strings that
-- leave room for the rest of the path, and the number of files is not zero.
pub record IsReady {W : Type 0} (dir name : Text) (s : Globals W) : Type 0 where
  pub dir_string : c_string s.log_dir ≡ some dir
  pub name_string : c_string s.log_name ≡ some name
  pub fits : length dir + length name + 17 < max_path
  pub path_array : length s.log_path ≡ max_path
  pub index_int : IsInt s.log_index
  pub num_set : eqb_ℤ s.log_num (pos 0) ≡ false

pub same-IsReady :
    {W : Type 0} {dir name : Text} {s : Globals W} (t : Globals W)
    → IsReady dir name s
    → t.log_dir ≡ s.log_dir
    → t.log_name ≡ s.log_name
    → t.log_path ≡ s.log_path
    → t.log_index ≡ s.log_index
    → t.log_num ≡ s.log_num
    → IsReady dir name t
same-IsReady t h d n p i k = ground arith

abbrev pub next_index : ℤ → ℤ → ℤ
next_index num i = if ltb_ℤ (int_suc i) num then int_suc i else pos 0

module _ {W D E : Type 0} (env : LogEnv W D E) where
  open env use {path_exists, delete_file}

  -- The file exists and has reached the configured size.
  abbrev pub is_full : Text → Globals W → Bool
  is_full path s =
      path_exists path s.world && not (ltb_ℤ (get_file_size env path s.world) s.log_size)

  abbrev pub print_path : Text → Text → Globals W → Globals W
  print_path dir name s = record s {
    log_path = printed (log_file dir name (int_suc s.log_index)) s.log_path;
  }

  print_log_path-eq :
      (dir name : Text) (s : Globals W)
      → length (log_file dir name (int_suc s.log_index)) < max_path
      → print_log_path env dir name s
        ≡ ok (log_file dir name (int_suc s.log_index)) (print_path dir name s)
  unfolding print_log_path
  print_log_path-eq dir name s h = rw (sprintf_s-fits max_path _ s.log_path h)

  abbrev pub delete_at : Text → Globals W → Globals W
  delete_at path s = record s { world = delete_file path s.world }

  abbrev pub at_index : ℤ → Globals W → Globals W
  at_index i s = record s { log_index = i }

  -- The state behind `next_log_path`.
  unfoldable pub advance : Text → Text → Globals W → Globals W
  advance dir name s =
      let i = int_suc s.log_index in
      let path = log_file dir name (int_suc i) in
      let kept = print_path dir name (at_index i s) in
      if ltb_ℤ i s.log_num
      then (if path_exists path s.world then delete_at path kept else kept)
      else delete_at (log_file dir name (int_suc (pos 0)))
          (print_path dir name (at_index (pos 0) s))

  next_log_path-eq :
      (dir name : Text) (s : Globals W)
      → IsInt s.log_index
      → length dir + length name + 17 < max_path
      → next_log_path env dir name s ≡ ok 0 (advance dir name s)
  unfolding next_log_path advance
  next_log_path-eq dir name s h fits = ground (
    arith,
    print_log_path-eq dir name (at_index (int_suc s.log_index) s)
        (length-log_file dir name _ (int_suc-IsInt _ (int_suc-IsInt _ h)) fits),
    print_log_path-eq dir name (at_index (pos 0) s)
        (length-log_file dir name _ (int_suc-IsInt (pos 0) (omega arith)) fits),
  )

  abbrev pub current_file : Text → Text → Globals W → Text
  current_file dir name s = log_file dir name (int_suc s.log_index)

  -- The state behind a `set_log_path` that keeps the current file.
  abbrev pub stay : Text → Text → Globals W → Globals W
  stay dir name s =
      let path = current_file dir name s in
      record s { log_path = path ++ replicate (max_path - length path) 0 }

  pub set_log_path-eq :
      (dir name : Text) (s : Globals W)
      → IsReady dir name s
      → set_log_path env s
        ≡ ok 0 (if is_full (current_file dir name s) s then advance dir name s else stay dir name s)
  unfolding set_log_path
  set_log_path-eq dir name s h = ground (
    arith,
    h.dir_string,
    h.name_string,
    h.num_set,
    next_log_path-eq dir name s h.index_int h.fits,
    length-log_file dir name _ (int_suc-IsInt _ h.index_int) h.fits,
  )
