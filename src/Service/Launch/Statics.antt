-- ===== src/Service/Launch/Statics.antt =====
-- The static variables that `LaunchAppInSession` leaves alone.
use winservice.Base.{
  ℕ, ◌≡◌, refl, inl, inr, Bool-cases, Option-cases, Text, Option, none, some, Ends, Ends-bind,
  Ends-mono, codes, ◌++◌,
}
use winservice.Base.Decimal.{show_nat}
use winservice.Service.Env.{info, ServiceEnv}
use winservice.Service.State.{Agent, plus, holding}
use winservice.Service.Launch.{
  start_as_user, launch_with_token, duplicate_and_launch, launch_with_process_token,
  launch_app_in_session, close_if, console_flags, unicode_flags,
}

-- The service status and the exit event.
pub record Same {W : Type 0} (s u : Agent W) : Type 0 where
  pub status : u.status ≡ s.status
  pub exit_event : u.exit_event ≡ s.exit_event

module _ {W : Type 0} (env : ServiceEnv W) where
  open env use {
    write_log, active_session, query_user_token, open_process_token, lookup_privilege,
    duplicate_token, create_environment, create_process_as_user, set_token_session,
    adjust_privileges,
  }

  start_as_user-Same :
      (command : Text) (dup : ℕ) (s : Agent W)
      → Ends (λ _ u. Same s u) (start_as_user env command dup s)
  unfolding start_as_user
  start_as_user-Same command dup s =
      let block = create_environment dup s.world in
      let flags : ℕ = elim block.0 [ none ↦ console_flags | some _ ↦ unicode_flags ] in
      elim (Option-cases (create_process_as_user dup command flags block.0 block.1).0) [
        | inl e ↦ rw e (record { status = refl; exit_event = refl })
        | inr (p, e) ↦ rw e (record { status = refl; exit_event = refl })
      ]

  launch_with_token-Same :
      (command : Text) (session luid dup : ℕ) (s : Agent W)
      → Ends (λ _ u. Same s u) (launch_with_token env command session luid dup s)
  unfolding launch_with_token
  launch_with_token-Same command session luid dup s =
      let set = set_token_session dup session s.world in
      let adjusted = adjust_privileges dup luid set.1 in
      elim (Bool-cases set.0) [
        | inr refused ↦ rw refused (record { status = refl; exit_event = refl })
        | inl done ↦ elim (Bool-cases adjusted.0) [
          | inr refused ↦ rw (done, refused) (record { status = refl; exit_event = refl })
          | inl worked ↦
              rw (done, worked)
                (Ends-mono (start_as_user env command dup (record s { world = adjusted.1 }))
                  (start_as_user-Same command dup (record s { world = adjusted.1 }))
                  λ _ u same. record { status = same.status; exit_event = same.exit_event })
        ]
      ]

  duplicate_and_launch-Same :
      (command : Text) (session luid token : ℕ) (s : Agent W)
      → Ends (λ _ u. Same s u) (duplicate_and_launch env command session luid token s)
  unfolding duplicate_and_launch
  duplicate_and_launch-Same command session luid token s =
      let made = duplicate_token token s.world in
      elim (Option-cases made.0) [
        | inl e ↦ rw e (record { status = refl; exit_event = refl })
        | inr (d, e) ↦
            let t : Agent W = record s { handles = plus d s.handles; world = made.1 } in
            rw e (
              Ends-bind (λ _ u. Same t u) _ (launch_with_token env command session luid d t) _
                (launch_with_token-Same command session luid d t)
                λ _ u same. record { status = same.status; exit_event = same.exit_event })
      ]

  launch_with_process_token-Same :
      (command : Text) (session : ℕ) (token : Option ℕ) (s : Agent W)
      → Ends (λ _ u. Same s u) (launch_with_process_token env command session token s)
  unfolding launch_with_process_token
  launch_with_process_token-Same command session none s = record {
    status = refl;
    exit_event = refl;
  }
  launch_with_process_token-Same command session (some token) s =
      elim (Option-cases (lookup_privilege s.world)) [
        | inl e ↦ rw e (record { status = refl; exit_event = refl })
        | inr (luid, e) ↦ rw e (duplicate_and_launch-Same command session luid token s)
      ]

  close_if-Same :
      (x : Option ℕ) (s u : Agent W) → Same s u → Ends (λ _ v. Same s v) (close_if env x u)
  close_if-Same none s u same = same
  close_if-Same (some h) s u same = record { status = same.status; exit_event = same.exit_event }

  pub launch_app_in_session-Same :
      (command : Text) (s : Agent W) → Ends (λ _ u. Same s u) (launch_app_in_session env command s)
  unfolding launch_app_in_session
  launch_app_in_session-Same command s =
      let session = active_session s.world in
      let user = query_user_token session (
        write_log info (codes "LaunchAppInSession Session Id " ++ (show_nat session ++ codes "l"))
          s.world) in
      let token = open_process_token user.1 in
      let t : Agent W = record s {
        handles = holding token.0 (holding user.0 s.handles);
        world = token.1;
      } in
      Ends-bind (λ _ u. Same s u) _ (launch_with_process_token env command session token.0 t) _
        (Ends-mono (launch_with_process_token env command session token.0 t)
          (launch_with_process_token-Same command session token.0 t)
          λ _ u same. record { status = same.status; exit_event = same.exit_event })
        λ dup u same.
          Ends-bind (λ _ v. Same s v) _ (close_if env user.0 u) _ (close_if-Same user.0 s u same)
            λ _ v same.
              Ends-bind (λ _ w. Same s w) _ (close_if env dup v) _ (close_if-Same dup s v same)
                λ _ w same. close_if-Same token.0 s w same
