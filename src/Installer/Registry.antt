-- ===== src/Installer/Registry.antt =====
-- What `ServiceInstall` leaves in the service manager's database.
use winservice.Base.{
  ℕ, ◌≡◌, refl, ◌∙◌, ap, inl, inr, Bool, true, false, Option-cases, Text, Option, none, some, codes,
  ◌++◌, Ends, Ends-bind, plus, holding,
}
use winservice.Installer.Env.{ServiceConfig, FailureActions, InstallEnv, Installing}
use winservice.Installer.Install.{
  ready, create_or_update, configure, finish_service, service_install, svc_name, svc_desc,
  config_of, failure_actions,
}

-- The entry of the service.
pub record Entry : Type 0 where
  pub config : ServiceConfig
  pub description : Option Text
  pub failure : Option FailureActions
  pub failure_flag : Bool

abbrev pub new_entry : ServiceConfig → Entry
new_entry c = record { config = c; description = none; failure = none; failure_flag = false }

-- What the installer means to leave.
abbrev pub installed : Text → Entry
installed path = record {
  config = config_of (some path);
  description = some svc_desc;
  failure = some failure_actions;
  failure_flag = true;
}

-- Documented behaviour of a service manager that grants every request: the service is found exactly
-- where it has an entry, it is created where it has none, and each change is stored in its entry.
pub record Grants {W : Type 0} (env : InstallEnv W) : Type 0 where
  pub entry : W → Option Entry
  pub printf-entry : (t : Text) (w : W) → entry (env.printf t w) ≡ entry w
  pub start_service-entry : (h : ℕ) (w : W) → entry (env.start_service h w) ≡ entry w
  pub close-entry : (h : ℕ) (w : W) → entry (env.close_service_handle h w) ≡ entry w
  pub opened : (w : W) → (m : ℕ) × ((env.open_manager w).0 ≡ some m)
  pub open_manager-entry : (w : W) → entry (env.open_manager w).1 ≡ entry w
  pub open_service-entry : (m : ℕ) (w : W) → entry (env.open_service m svc_name w).1 ≡ entry w
  pub not_found : (m : ℕ) (w : W) → (env.open_service m svc_name w).0 ≡ none → entry w ≡ none
  pub found :
      (m h : ℕ) (w : W)
      → (env.open_service m svc_name w).0 ≡ some h
      → (e : Entry) × (entry w ≡ some e)
  pub created :
      (m : ℕ) (c : ServiceConfig) (w : W)
      → entry w ≡ none
      → (h : ℕ) × ((env.create_service m svc_name c w).0 ≡ some h)
        × (entry (env.create_service m svc_name c w).1 ≡ some (new_entry c))
  -- A NULL path would leave the binary as it is.
  pub changed :
      (h : ℕ) (path : Text) (w : W) (e : Entry)
      → entry w ≡ some e
      → ((env.change_config h (config_of (some path)) w).0 ≡ true)
        × (entry (env.change_config h (config_of (some path)) w).1
            ≡ some (record e { config = config_of (some path) }))
  pub described :
      (h : ℕ) (t : Text) (w : W) (e : Entry)
      → entry w ≡ some e
      → ((env.set_description h t w).0 ≡ true)
        × (entry (env.set_description h t w).1 ≡ some (record e { description = some t }))
  pub acting :
      (h : ℕ) (a : FailureActions) (w : W) (e : Entry)
      → entry w ≡ some e
      → ((env.set_failure_actions h a w).0 ≡ true)
        × (entry (env.set_failure_actions h a w).1 ≡ some (record e { failure = some a }))
  pub flagged :
      (h : ℕ) (b : Bool) (w : W) (e : Entry)
      → entry w ≡ some e
      → entry (env.set_failure_flag h b w).1 ≡ some (record e { failure_flag = b })

module _ {W : Type 0} (env : InstallEnv W) (scm : Grants env) where
  open env use {
    printf, open_manager, open_service, create_service, start_service, change_config,
    set_description, set_failure_actions, set_failure_flag, last_error,
  }

  -- An entry with the configuration, whatever else it says.
  record IsConfigured (path : Text) (w : W) : Type 0 where
    entry : Entry
    stored : scm.entry w ≡ some entry
    config : entry.config ≡ config_of (some path)

  -- The same service comes out of the creation and of the update.
  abbrev Found : Option ℕ → W → Type 0
  Found none w = scm.entry w ≡ none
  Found (some h) w = (e : Entry) × (scm.entry w ≡ some e)

  create_or_update-IsConfigured :
      (m : ℕ) (path : Text) (found : Option ℕ) (s : Installing W)
      → Found found s.world
      → Ends
          (λ obtained u. ((h : ℕ) × (obtained ≡ ready h)) × IsConfigured path u.world)
          (create_or_update env m (some path) found s)
  unfolding create_or_update
  create_or_update-IsConfigured m path none s absent =
      let (h, made, stored) = scm.created m (config_of (some path)) s.world absent in
      rw made (
        (h, refl),
        record {
          entry = new_entry (config_of (some path));
          stored =
              scm.start_service-entry h
                (create_service m svc_name (config_of (some path)) s.world).1
              ∙ stored;
          config = refl;
        },
      )
  create_or_update-IsConfigured m path (some h) s (e, present) =
      let (changed, stored) = scm.changed h path s.world e present in
      rw changed (
        (h, refl),
        record {
          entry = record e { config = config_of (some path) };
          stored = stored;
          config = refl;
        },
      )

  configure-installs :
      (h : ℕ) (path : Text) (s : Installing W)
      → IsConfigured path s.world
      → Ends (λ _ u. scm.entry u.world ≡ some (installed path)) (configure env h s)
  unfolding configure
  configure-installs h path s configured =
      let e = configured.entry in
      let (told, described) = scm.described h svc_desc s.world e configured.stored in
      let w = (set_description h svc_desc s.world).1 in
      let (set, acting) = scm.acting h failure_actions w _ described in
      let v = (set_failure_actions h failure_actions w).1 in
      rw (told, set)
        (scm.flagged h true v _ acting
          ∙ ap (λ c. some (record (installed path) { config = c })) configured.config)

  finish_service-installs :
      (h : ℕ) (path : Text) (s : Installing W)
      → IsConfigured path s.world
      → Ends (λ _ u. scm.entry u.world ≡ some (installed path)) (finish_service env (ready h) s)
  unfolding finish_service
  finish_service-installs h path s configured =
      Ends-bind (λ _ v. scm.entry v.world ≡ some (installed path)) _ (configure env h s) _
        (configure-installs h path s configured) λ _ v done. scm.close-entry h v.world ∙ done

  open_service-Found :
      (m : ℕ) (w : W) → Found (open_service m svc_name w).0 (open_service m svc_name w).1
  open_service-Found m w = elim (Option-cases (open_service m svc_name w).0) [
    | inl e ↦ rw e (scm.open_service-entry m w ∙ scm.not_found m w e)
    | inr (h, e) ↦
        let (x, present) = scm.found m h w e in rw e (x, scm.open_service-entry m w ∙ present)
  ]

  -- Where the service manager grants every request, `ServiceInstall` returns 0 and leaves the same
  -- entry whether the service existed or not: the configuration with the path, the description,
  -- the failure actions and their flag.
  pub service_install-installs :
      (path : Text) (s : Installing W)
      → Ends
          (λ code u. (code ≡ 0) × (scm.entry u.world ≡ some (installed path)))
          (service_install env (some path) s)
  unfolding service_install
  service_install-installs path s =
      let (m, e) = scm.opened s.world in
      let manager = open_manager s.world in
      let printed = printf (path ++ codes "\n") manager.1 in
      let service = open_service m svc_name printed in
      let t : Installing W = record {
        handles = holding service.0 (plus m s.handles);
        world = service.1;
      } in
      rw e (
        Ends-bind (λ obtained u. ((h : ℕ) × (obtained ≡ ready h)) × IsConfigured path u.world) _
          (create_or_update env m (some path) service.0 t) _
          (create_or_update-IsConfigured m path service.0 t (open_service-Found m printed))
          λ obtained u ((h, is_ready), configured). rw is_ready (
            Ends-bind (λ _ v. scm.entry v.world ≡ some (installed path)) _
              (finish_service env (ready h) u) _ (finish_service-installs h path u configured)
              λ _ v done. (refl, scm.close-entry m v.world ∙ done)))
