-- ===== src/Log/Config/Settings.antt =====
-- What the getters leave where their settings are there.
use winservice.Base.{
  int_scale, ℕ, List, ◌∷◌, ◌++◌, ◌+◌, ◌<◌, ◌≡◌, refl, true, pos, ◌≤ℤ◌, ◌<ℤ◌, IsInt, Text, Buffer,
  codes, c_string, some, length, replicate, ok, arith,
}
use winservice.Base.Decimal.{atoi}
use winservice.Base.Strings.{NoNul, memcpy_s-fits}
use winservice.Log.Env.{LogEnv}
use winservice.Log.State.{Globals, max_path, read_string, erase}
use winservice.Log.Directory.{create_deep_directory}
use winservice.Log.Config.{
  find_named, find_setting, get_log_size, get_log_name, get_log_num, get_log_dir,
  get_log_current_index, read_settings, init_log_configure,
}

module _ {W D E : Type 0} (env : LogEnv W D E) where
  -- The getters find an element of that name below `e`, with that text.
  abbrev pub Setting : D → E → Text → Text → Type 0
  Setting d e name text =
      (x : E) × (find_setting env d name e ≡ some x) × (env.get_text d x ≡ some text)

  -- The settings of a module in a document.
  pub record HasSettings (d : D) (e : E) (dir file size num index : Text) : Type 0 where
    pub size_text : Setting d e (codes "Size") size
    pub num_text : Setting d e (codes "Num") num
    pub dir_text : Setting d e (codes "Dir") dir
    pub index_text : Setting d e (codes "Index") index
    pub name_text : Setting d e (codes "Name") file
    pub fits : length dir + length file + 17 < max_path
    pub dir_string : NoNul dir
    pub file_string : NoNul file
    pub num_int : IsInt (atoi num)
    pub low : pos 0 ≤ℤ atoi index
    pub high : atoi index <ℤ atoi num

  pub get_log_size-set :
      (d : D) (e : E) (t : Text) (s : Globals W)
      → Setting d e (codes "Size") t
      → get_log_size env d e s
        ≡ ok 0 (record s { log_size = int_scale 1024 (int_scale 1024 (atoi t)) })
  unfolding get_log_size
  get_log_size-set d e t s (x, found, text) = ground (arith, found, text)

  get_log_num-set :
      (d : D) (e : E) (t : Text) (s : Globals W)
      → Setting d e (codes "Num") t
      → get_log_num env d e s ≡ ok 0 (record s { log_num = atoi t })
  unfolding get_log_num
  get_log_num-set d e t s (x, found, text) = ground (arith, found, text)

  get_log_current_index-set :
      (d : D) (e : E) (t : Text) (s : Globals W)
      → Setting d e (codes "Index") t
      → get_log_current_index env d e s ≡ ok 0 (record s { log_index = atoi t })
  unfolding get_log_current_index
  get_log_current_index-set d e t s (x, found, text) = ground (arith, found, text)

  get_log_name-set :
      (d : D) (e : E) (t : Text) (s : Globals W)
      → Setting d e (codes "Name") t
      → NoNul t
      → length t < max_path
      → s.log_name ≡ replicate max_path 0
      → (buf : Buffer) × (get_log_name env d e s ≡ ok 0 (record s { log_name = buf }))
        × (c_string buf ≡ some t)
  unfolding get_log_name
  get_log_name-set d e t s (x, found, text) nul short zero =
      let (buf, copied, string) = memcpy_s-fits t max_path nul short in
      (buf, ground (arith, found, text, zero, copied), string)

  -- The directory is there.
  get_log_dir-set :
      (d : D) (e : E) (t : Text) (s : Globals W)
      → Setting d e (codes "Dir") t
      → NoNul t
      → length t < max_path
      → s.log_dir ≡ replicate max_path 0
      → env.path_exists t s.world ≡ true
      → (buf : Buffer) × (get_log_dir env d e s ≡ ok 1 (record s { log_dir = buf }))
        × (c_string buf ≡ some t)
  unfolding get_log_dir create_deep_directory
  get_log_dir-set d e t s (x, found, text) nul short zero there =
      let (buf, copied, string) = memcpy_s-fits t max_path nul short in
      (buf, ground (arith, found, text, zero, copied, string, there), string)

  -- The document at the path, and the module's element in it.
  pub record Found (path name : Text) (d : D) (e : E) (w : W) : Type 0 where
    pub root : E
    pub loaded : env.load_file path w ≡ some d
    pub rooted : env.root_element d ≡ some root
    pub named : find_named env d name (env.child_elements d root) ≡ some e

  module _ (d : D) (e : E) (dir file size num index : Text) where
    abbrev pub configured : (b b' : Buffer) → Globals W → Globals W
    configured b b' s = record s {
      log_size = int_scale 1024 (int_scale 1024 (atoi size));
      log_num = atoi num;
      log_dir = b;
      log_index = atoi index;
      log_name = b';
    }

    -- The statics behind each getter.
    abbrev sized : Globals W → Globals W
    sized s = record s { log_size = int_scale 1024 (int_scale 1024 (atoi size)) }

    abbrev counted : Globals W → Globals W
    counted s = record (sized s) { log_num = atoi num }

    abbrev indexed : Buffer → Globals W → Globals W
    indexed b s = record (counted s) { log_dir = b; log_index = atoi index }

    read_settings-run :
        (b b' : Buffer) (s : Globals W)
        → HasSettings d e dir file size num index
        → get_log_dir env d e (counted s) ≡ ok 1 (record (counted s) { log_dir = b })
        → get_log_name env d e (indexed b s) ≡ ok 0 (configured b b' s)
        → read_settings env d (some e) s ≡ ok tt (configured b b' s)
    unfolding read_settings
    read_settings-run b b' s h got_dir got_name =
        rw
          (
            get_log_size-set d e size s h.size_text,
            get_log_num-set d e num (sized s) h.num_text,
            got_dir,
            get_log_current_index-set d e index (record (counted s) { log_dir = b }) h.index_text,
            got_name,
          )
          refl

    read_settings-set :
        (s : Globals W)
        → HasSettings d e dir file size num index
        → s.log_dir ≡ replicate max_path 0
        → s.log_name ≡ replicate max_path 0
        → env.path_exists dir s.world ≡ true
        → (b : Buffer) × (b' : Buffer) × (read_settings env d (some e) s
            ≡ ok tt (configured b b' s))
          × (c_string b ≡ some dir)
          × (c_string b' ≡ some file)
    read_settings-set s h zero zero' there =
        let (b, got_dir, dir_string) =
          get_log_dir-set d e dir (counted s) h.dir_text h.dir_string (omega (arith, h.fits)) zero
            there in
        let (b', got_name, name_string) =
          get_log_name-set d e file (indexed b s) h.name_text h.file_string (omega (arith, h.fits))
            zero' in
        (b, b', read_settings-run b b' s h got_dir got_name, dir_string, name_string)

    -- Behind the `new` of the document, and behind its `free`.
    abbrev pub opened : Text → Globals W → Globals W
    opened path s =
        let made = env.new_document path s.world in
        record s { live = made.0 ∷ s.live; world = made.1 }

    abbrev pub freed : List ℕ → Globals W → Globals W
    freed live s = record s { live = env.tree_blocks d ++ live }

    init_log_configure-run :
        (path name : Text) (b b' : Buffer) (s : Globals W)
        → Found path name d e (opened path s).world
        → read_string s.config_path s ≡ ok path s
        → read_settings env d (some e) (opened path s) ≡ ok tt (configured b b' (opened path s))
        → init_log_configure env s.config_path name s
          ≡ ok 0 (freed s.live (configured b b' (opened path s)))
    unfolding init_log_configure
    init_log_configure-run path name b b' s f read run =
        let made = env.new_document path s.world in
        let gone : erase made.0 (made.0 ∷ s.live) ≡ s.live = ground arith in
        rw (init_log_configure, read, f.loaded, f.rooted, f.named, run, gone) refl

    pub init_log_configure-set :
        (path name : Text) (s : Globals W)
        → HasSettings d e dir file size num index
        → Found path name d e (opened path s).world
        → c_string s.config_path ≡ some path
        → s.log_dir ≡ replicate max_path 0
        → s.log_name ≡ replicate max_path 0
        → env.path_exists dir (opened path s).world ≡ true
        → (b : Buffer) × (b' : Buffer) × (init_log_configure env s.config_path name s
            ≡ ok 0 (freed s.live (configured b b' (opened path s))))
          × (c_string b ≡ some dir)
          × (c_string b' ≡ some file)
    init_log_configure-set path name s h f string zero zero' there =
        let read : read_string s.config_path s ≡ ok path s = rw (read_string, string) refl in
        let (b, b', run, dir_string, name_string) =
          read_settings-set (opened path s) h zero zero' there in
        (b, b', init_log_configure-run path name b b' s f read run, dir_string, name_string)
