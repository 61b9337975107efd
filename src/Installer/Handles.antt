-- ===== src/Installer/Handles.antt =====
-- The handles of `ServiceInstall`.
use winservice.Base.{
  ℕ, ◌≡◌, refl, inl, inr, Bool-cases, Option-cases, Text, Option, none, some, codes, ◌++◌, Ends,
  Ends-bind, plus, holding, arith,
}
use winservice.Installer.Env.{InstallEnv, Installing}
use winservice.Installer.Install.{
  Obtained, missing, stale, ready, create_or_update, configure, finish_service, service_install,
  svc_name, config_of, text_of,
}

-- The service's handle, where there is one.
abbrev pub with_service : Obtained → (ℕ → ℕ) → ℕ → ℕ
with_service missing f = f
with_service (stale h) f = plus h f
with_service (ready h) f = plus h f

module _ {W : Type 0} (env : InstallEnv W) where
  open env use {
    printf, open_manager, open_service, create_service, change_config, set_description,
    set_failure_actions,
  }

  -- The handle that was found is open before, and the handle that is obtained behind.
  create_or_update-Ends :
      (m : ℕ) (binary : Option Text) (found : Option ℕ) (f : ℕ → ℕ) (w : W)
      → Ends
          (λ obtained u. u.handles ≡ with_service obtained f)
          (create_or_update env m binary found (record { handles = holding found f; world = w }))
  unfolding create_or_update
  create_or_update-Ends m binary none f w =
      elim (Option-cases (create_service m svc_name (config_of binary) w).0) [
        | inl e ↦ rw e refl
        | inr (h, e) ↦ rw e refl
      ]
  create_or_update-Ends m binary (some h) f w =
      elim (Bool-cases (change_config h (config_of binary) w).0) [
        | inl e ↦ rw e refl
        | inr e ↦ rw e refl
      ]

  configure-Ends :
      (h : ℕ) (s : Installing W) → Ends (λ _ u. u.handles ≡ s.handles) (configure env h s)
  unfolding configure
  configure-Ends h s = ground arith

  finish_service-Ends :
      (obtained : Obtained) (f : ℕ → ℕ) (s : Installing W)
      → s.handles ≡ with_service obtained f
      → Ends (λ _ u. (a : ℕ) → u.handles a ≡ f a) (finish_service env obtained s)
  unfolding finish_service
  finish_service-Ends missing f s held = λ a. rw held refl
  finish_service-Ends (stale h) f s held = λ a. rw held (ground arith)
  finish_service-Ends (ready h) f s held =
      Ends-bind (λ _ u. u.handles ≡ s.handles) _ (configure env h s) _ (configure-Ends h s)
        λ _ u same a. rw (same, held) (ground arith)

  -- `ServiceInstall` returns 0 on every path, and the handles that are open are those before.
  pub service_install-balanced :
      (binary : Option Text) (s : Installing W)
      → Ends
          (λ code u. (code ≡ 0) × ((a : ℕ) → u.handles a ≡ s.handles a))
          (service_install env binary s)
  unfolding service_install
  service_install-balanced binary s =
      let manager = open_manager s.world in
      elim (Option-cases manager.0) [
        | inl e ↦ rw e (refl, λ a. refl)
        | inr (m, e) ↦
            let found = open_service m svc_name (printf (text_of binary ++ codes "\n") manager.1) in
            rw e (
              Ends-bind (λ obtained u. u.handles ≡ with_service obtained (plus m s.handles)) _
                (create_or_update env m binary found.0
                  (record { handles = holding found.0 (plus m s.handles); world = found.1 }))
                _ (create_or_update-Ends m binary found.0 (plus m s.handles) found.1)
                λ obtained t held.
                  Ends-bind (λ _ u. (a : ℕ) → u.handles a ≡ plus m s.handles a) _
                    (finish_service env obtained t) _
                    (finish_service-Ends obtained (plus m s.handles) t held)
                    λ _ u left. (refl, λ a. ground (arith, left a)))
      ]
