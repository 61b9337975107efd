-- ===== src/Log/Path/Choice.antt =====
-- What `setLogPath` promises the logging functions: the file of the current index, within the
-- configured number of files, with room for the message.
use winservice.Base.{
  ℕ, ◌<◌, ◌≤◌, ◌≡◌, refl, inl, inr, false, ℤ, pos, negsuc, ◌≤ℤ◌, ◌<ℤ◌, ltb_ℤ, int_suc, IsInt,
  int_suc-IsInt, Text, c_string, some, length, if◌then◌else◌, Ends, Outcome, arith, ◌∙◌, Bool-cases,
}
use winservice.Base.Strings.{
  NoNul, c_string-NoNul, c_string-append_nul, length-printed, length-padded, c_string-padded,
}
use winservice.Log.Env.{LogEnv}
use winservice.Log.State.{Globals, max_path}
use winservice.Log.Path.{log_file, set_log_path, next_log_path, print_log_path}
use winservice.Log.Path.Rotation.{
  IsReady, is_full, at_index, delete_at, print_path, next_index, current_file, stay, advance,
  set_log_path-eq, length-log_file, log_file-NoNul,
}

-- The static variables but `_log_path` and `_log_index`, and the blocks, are the same.
abbrev pub SameConfig : {W : Type 0} → Globals W → Globals W → Type 0
SameConfig s t =
    (t.log_size ≡ s.log_size)
    × (t.log_num ≡ s.log_num)
    × (t.log_dir ≡ s.log_dir)
    × (t.log_name ≡ s.log_name)
    × (t.mutex ≡ s.mutex)
    × (t.live ≡ s.live)
    × (t.log ≡ s.log)
    × (t.initialized ≡ s.initialized)
    × (t.config_path ≡ s.config_path)
    × (t.test ≡ s.test)

lt_le : {a b : ℕ} → a < b → a ≤ b
lt_le h = omega arith

next_index-range :
    (num i : ℤ)
    → IsInt num
    → pos 0 ≤ℤ i
    → i <ℤ num
    → (pos 0 ≤ℤ next_index num i) × (next_index num i <ℤ num)
unfolding int_suc
next_index-range (pos m) (pos n) int lo hi = ground arith
next_index-range (negsuc m) (pos n) int lo hi = absurd (omega arith)
next_index-range num (negsuc n) int lo hi = absurd (omega arith)

record Chose {W : Type 0} (dir name : Text) (i : ℤ) (s t : Globals W) : Type 0 where
  index : t.log_index ≡ i
  path : c_string t.log_path ≡ some (log_file dir name (int_suc i))
  ready : IsReady dir name t
  same : SameConfig s t

module _ {W D E : Type 0} (env : LogEnv W D E) (dir name : Text) (s : Globals W)
    (h : IsReady dir name s) where
  open env use {path_exists, delete_file}

  NoNul-file : (n : ℤ) → NoNul (log_file dir name n)
  NoNul-file n =
      log_file-NoNul dir name n (c_string-NoNul _ _ h.dir_string) (c_string-NoNul _ _ h.name_string)

  length-file : (i : ℤ) → IsInt i → length (log_file dir name (int_suc i)) < max_path
  length-file i k = length-log_file dir name _ (int_suc-IsInt i k) h.fits

  stay-Chose : Chose dir name s.log_index s (stay env dir name s)
  stay-Chose =
      let fits = length-file s.log_index h.index_int in
      let string = c_string-padded _ max_path (NoNul-file (int_suc s.log_index)) fits in
      let array = length-padded (log_file dir name (int_suc s.log_index)) max_path (lt_le fits) in
      record {
        index = refl;
        path = string;
        ready = record {
          dir_string = h.dir_string;
          name_string = h.name_string;
          fits = h.fits;
          path_array = array;
          index_int = h.index_int;
          num_set = h.num_set;
        };
        same = (refl, refl, refl, refl, refl, refl, refl, refl, refl, refl);
      }

  print_path-Chose :
      (i : ℤ) → IsInt i → Chose dir name i s (print_path env dir name (at_index env i s))
  print_path-Chose i k =
      let fits = length-file i k in
      record {
        index = refl;
        path = c_string-append_nul _ _ (NoNul-file (int_suc i));
        ready = record {
          dir_string = h.dir_string;
          name_string = h.name_string;
          fits = h.fits;
          path_array = length-printed _ s.log_path (omega (arith, h.path_array)) ∙ h.path_array;
          index_int = k;
          num_set = h.num_set;
        };
        same = (refl, refl, refl, refl, refl, refl, refl, refl, refl, refl);
      }

  -- A deletion changes only the world.
  delete_at-Chose :
      (i : ℤ) (p : Text) {t : Globals W}
      → Chose dir name i s t
      → Chose dir name i s (delete_at env p t)
  delete_at-Chose i p c = record {
    index = c.index;
    path = c.path;
    ready = record {
      dir_string = c.ready.dir_string;
      name_string = c.ready.name_string;
      fits = c.ready.fits;
      path_array = c.ready.path_array;
      index_int = c.ready.index_int;
      num_set = c.ready.num_set;
    };
    same = c.same;
  }

  advance-Chose : Chose dir name (next_index s.log_num s.log_index) s (advance env dir name s)
  unfolding advance
  advance-Chose =
      let next = print_path-Chose (int_suc s.log_index) (int_suc-IsInt _ h.index_int) in
      let first = delete_at-Chose (pos 0) _ (print_path-Chose (pos 0) (omega arith)) in
      elim (Bool-cases (ltb_ℤ (int_suc s.log_index) s.log_num)) [
        | inl more ↦
            elim (Bool-cases (
              path_exists (current_file env dir name (at_index env (int_suc s.log_index) s))
                s.world)) [
                  | inl old ↦ rw (more, old) (delete_at-Chose _ _ next)
                  | inr new ↦ rw (more, new) next
                ]
        | inr last ↦ rw last first
      ]

  -- With a ready configuration `setLogPath` succeeds. It keeps the index while the file of the
  -- current index is missing or smaller than the limit, moves to the next index, or to 0 behind the
  -- last, when that file is full, and leaves in `_log_path` the name of the file of the index that
  -- it ends with. The configuration stays ready, and the static variables but these two and the
  -- allocated blocks are unchanged. What becomes of the world, where files are deleted, it does not
  -- say.
  pub set_log_path-rotates :
      Ends
        (λ r t.
          (r ≡ 0)
          × (t.log_index ≡ (
              if is_full env (current_file env dir name s) s
              then next_index s.log_num s.log_index
              else s.log_index))
          × (c_string t.log_path ≡ some (log_file dir name (int_suc t.log_index)))
          × IsReady dir name t
          × SameConfig s t)
        (set_log_path env s)
  set_log_path-rotates = elim (Bool-cases (is_full env (current_file env dir name s) s)) [
    | inl full ↦
        rw (set_log_path-eq env dir name s h, full)
          (
            refl,
            advance-Chose.index,
            rw advance-Chose.index advance-Chose.path,
            advance-Chose.ready,
            advance-Chose.same,
          )
    | inr room ↦
        rw (set_log_path-eq env dir name s h, room)
          (refl, refl, stay-Chose.path, stay-Chose.ready, stay-Chose.same)
  ]

  -- With a ready configuration: while the index is one of `0 … _log_num - 1`, it stays one: the log
  -- never takes more than the configured number of files.
  pub set_log_path-range :
      IsInt s.log_num
      → pos 0 ≤ℤ s.log_index
      → s.log_index <ℤ s.log_num
      → Ends (λ _ t. (pos 0 ≤ℤ t.log_index) × (t.log_index <ℤ t.log_num)) (set_log_path env s)
  set_log_path-range int lo hi =
      let next = next_index-range s.log_num s.log_index int lo hi in
      elim (Bool-cases (is_full env (current_file env dir name s) s)) [
        | inl full ↦
            rw (set_log_path-eq env dir name s h, full)
              (rw (advance-Chose.index, advance-Chose.same.1) next)
        | inr room ↦ rw (set_log_path-eq env dir name s h, room) (lo, hi)
      ]

  -- With a ready configuration, if `DeleteFileA` deletes, the chosen file is missing or smaller than the limit.
  pub set_log_path-room :
      ((p : Text) → path_exists p (delete_file p s.world) ≡ false)
      → Ends
          (λ _ t. is_full env (log_file dir name (int_suc t.log_index)) t ≡ false)
          (set_log_path env s)
  unfolding advance
  set_log_path-room deletes = rw (set_log_path-eq env dir name s h) (
      ground (
        arith,
        deletes (current_file env dir name (at_index env (int_suc s.log_index) s)),
        deletes (log_file dir name (int_suc (pos 0))),
      ))

module _ {W D E : Type 0} (env : LogEnv W D E) where
  -- Who may be in the critical section, which handler is set and whether the library is loaded.
  abbrev pub SameMode : Globals W → Globals W → Type 0
  SameMode s t = (t.initialized ≡ s.initialized) × (t.log ≡ s.log) × (t.mutex ≡ s.mutex)

  pub set_log_path-SameMode :
      (s : Globals W) → Outcome (λ _. SameMode s) (SameMode s) (set_log_path env s)
  unfolding set_log_path next_log_path print_log_path
  set_log_path-SameMode s = ground arith
