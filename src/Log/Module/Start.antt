-- ===== src/Log/Module/Start.antt =====
-- A first load that finds its document and all settings.
use winservice.Base.{
  ◌<◌, ◌≡◌, refl, sym, true, false, ℤ, pos, negsuc, ◌≤ℤ◌, ◌<ℤ◌, eqb_ℤ, IsInt, Text, Buffer, codes,
  c_string, none, some, ◌++◌, ◌∷◌, length, replicate, ok, Ends, arith,
}
use winservice.Base.Decimal.{atoi}
use winservice.Base.Strings.{NoNul, sprintf_s-fits, printed, c_string-append_nul}
use winservice.Log.Env.{LogEnv}
use winservice.Log.State.{Globals, max_path, backslash}
use winservice.Log.Config.{get_config_path}
use winservice.Log.Config.Settings.{HasSettings, Found, init_log_configure-set}
use winservice.Log.Write.{set_log_func}
use winservice.Log.Write.Journal.{IsLogging}
use winservice.Log.Module.{load_log_module}

within-IsInt : (i n : ℤ) → IsInt n → pos 0 ≤ℤ i → i <ℤ n → IsInt i
within-IsInt (pos i) n int low high = (omega (arith, int.0, high), omega arith)
within-IsInt (negsuc i) n int low high = absurd (omega (arith, low))

within-num_set : (i n : ℤ) → pos 0 ≤ℤ i → i <ℤ n → eqb_ℤ n (pos 0) ≡ false
within-num_set i n low high = ground arith

module _ {W D E : Type 0} (env : LogEnv W D E) where
  module _ (d : D) (e : E) (dir file size num index : Text) where
    -- Before the first load, in a process whose program lies at `exe`: the static arrays are zero.
    pub record IsFresh (exe path name : Text) (s : Globals W) : Type 0 where
      pub unloaded : s.initialized ≡ false
      pub zero_dir : s.log_dir ≡ replicate max_path 0
      pub zero_name : s.log_name ≡ replicate max_path 0
      pub zero_path : length s.log_path ≡ max_path
      pub exe_path : env.module_file_name s.world ≡ some exe
      pub config_path : path ≡ env.remove_file_spec exe ++ (backslash ∷ codes "configure.xml")
      pub config_string : NoNul path
      pub config_fits : length path < max_path
      pub document : Found env path name d e (env.new_document path s.world).1
      pub there : env.path_exists dir (env.new_document path s.world).1 ≡ true

    get_config_path-set :
        (exe path name : Text) (s : Globals W)
        → IsFresh exe path name s
        → (b : Buffer) × (get_config_path env
              (some s.config_path)
              (pos max_path)
              (record s { initialized = true; mutex = some 0 })
            ≡ ok (0, some b) (record s { initialized = true; mutex = some 0 }))
          × (c_string b ≡ some path)
    unfolding get_config_path
    get_config_path-set exe path name s h = (
      printed path s.config_path,
      rw
          (
            get_config_path,
            h.exe_path,
            sym h.config_path,
            sprintf_s-fits max_path path s.config_path h.config_fits,
          )
          refl,
      c_string-append_nul path _ h.config_string,
    )

    -- It returns 0, the library is ready to log, and the tree of the document stays allocated.
    pub load_log_module-IsLogging :
        (exe path name : Text) (s : Globals W)
        → HasSettings env d e dir file size num index
        → IsFresh exe path name s
        → Ends
            (λ code u.
              (code ≡ 0)
              × IsLogging env dir file u
              × (u.log_num ≡ atoi num)
              × (u.live ≡ env.tree_blocks d ++ s.live)
              × (u.world ≡ (env.new_document path s.world).1))
            (load_log_module env name none s)
    unfolding load_log_module set_log_func
    load_log_module-IsLogging exe path name s h fresh =
        let (b, got, string) = get_config_path-set exe path name s fresh in
        let t : Globals W = record s { initialized = true; mutex = some 0; config_path = b } in
        let (b1, b2, set, dir_string, name_string) =
          init_log_configure-set env d e dir file size num index path name t h fresh.document string
            fresh.zero_dir fresh.zero_name fresh.there in
        rw (fresh.unloaded, got, set)
          (
            refl,
            record {
              initialized = refl;
              log = refl;
              mutex = refl;
              ready = record {
                dir_string = dir_string;
                name_string = name_string;
                fits = h.fits;
                path_array = fresh.zero_path;
                index_int = within-IsInt (atoi index) (atoi num) h.num_int h.low h.high;
                num_set = within-num_set (atoi index) (atoi num) h.low h.high;
              };
              num = h.num_int;
              low = h.low;
              high = h.high;
            },
            refl,
            refl,
            refl,
          )
