-- ===== src/Service/Launch/Handles.antt =====
-- The handles of `LaunchAppInSession` and of `Run`.
use winservice.Base.{
  ℕ, ◌≡◌, refl, ◌⊎◌, inl, inr, Bool-cases, Option-cases, Text, Option, none, some, Ends, Ends-bind,
  Ends-mono, ◌>>=◌, ◌∙◌, arith, codes, ◌++◌,
}
use winservice.Service.Env.{info, ServiceEnv}
use winservice.Base.Decimal.{show_nat}
use winservice.Service.State.{Agent, plus, minus, holding}
use winservice.Service.Launch.{
  start_as_user, launch_with_token, duplicate_and_launch, launch_with_process_token,
  launch_app_in_session, close_if, run, run_tool, console_flags, unicode_flags,
}

module _ {W : Type 0} (env : ServiceEnv W) where
  open env use {
    write_log, active_session, query_user_token, open_process_token, lookup_privilege, close_handle,
    duplicate_token, create_environment, create_process, create_process_as_user, set_token_session,
    adjust_privileges,
  }

  -- `CreateProcessAsUserA` of the command has given the handles `p` and `q` of a process and its thread.
  abbrev pub Started : Text → (p q : ℕ) → Type 0
  Started command p q =
      (dup : ℕ) × (flags : ℕ) × (block : Option ℕ) × (w : W) × ((create_process_as_user dup command
          flags block w).0
        ≡ some (p, q))

  -- Nothing more is open than before, or the two handles of a started process are.
  abbrev pub Leaves : Text → (ℕ → ℕ) → Agent W → Type 0
  Leaves command before u =
      ((a : ℕ) → u.handles a ≡ before a)
      ⊎ ((p : ℕ) × (q : ℕ) × Started command p q
          × ((a : ℕ) → u.handles a ≡ plus q (plus p before) a))

  start_as_user-Leaves :
      (command : Text) (dup : ℕ) (s : Agent W)
      → Ends (λ _ u. Leaves command s.handles u) (start_as_user env command dup s)
  unfolding start_as_user
  start_as_user-Leaves command dup s =
      let block = create_environment dup s.world in
      let flags : ℕ = elim block.0 [ none ↦ console_flags | some _ ↦ unicode_flags ] in
      elim (Option-cases (create_process_as_user dup command flags block.0 block.1).0) [
        | inl e ↦ rw e (inl λ a. refl)
        | inr (p, e) ↦ rw e (inr (p.0, p.1, (dup, flags, block.0, block.1, e), λ a. refl))
      ]

  launch_with_token-Leaves :
      (command : Text) (session luid dup : ℕ) (s : Agent W)
      → Ends (λ _ u. Leaves command s.handles u) (launch_with_token env command session luid dup s)
  unfolding launch_with_token
  launch_with_token-Leaves command session luid dup s =
      let set = set_token_session dup session s.world in
      elim (Bool-cases set.0) [
        | inr refused ↦ rw refused (inl λ a. refl)
        | inl done ↦ elim (Bool-cases (adjust_privileges dup luid set.1).0) [
          | inr refused ↦ rw (done, refused) (inl λ a. refl)
          | inl adjusted ↦
              rw (done, adjusted)
                (start_as_user-Leaves command dup
                  (record s { world = (adjust_privileges dup luid set.1).1 }))
        ]
      ]

  duplicate_and_launch-Leaves :
      (command : Text) (session luid token : ℕ) (s : Agent W)
      → Ends
          (λ dup u. Leaves command (holding dup s.handles) u)
          (duplicate_and_launch env command session luid token s)
  unfolding duplicate_and_launch
  duplicate_and_launch-Leaves command session luid token s =
      let made = duplicate_token token s.world in
      elim (Option-cases made.0) [
        | inl e ↦ rw e (inl λ a. refl)
        | inr (d, e) ↦ rw e (
            Ends-bind (λ _ u. Leaves command (plus d s.handles) u) _
              (launch_with_token env command session luid d
                (record s { handles = plus d s.handles; world = made.1 }))
              _
              (launch_with_token-Leaves command session luid d
                (record s { handles = plus d s.handles; world = made.1 }))
              λ _ u left. left)
      ]

  -- Closing a handle that is held.
  drop-Leaves :
      {command : Text} (h : ℕ) (f : ℕ → ℕ) (u : Agent W)
      → Leaves command (plus h f) u
      → Leaves command f (record u { handles = minus h u.handles })
  drop-Leaves h f u (inl same) = inl λ a. ground (arith, same a)
  drop-Leaves h f u (inr (p, q, made, same)) = inr (p, q, made, λ a. ground (arith, same a))

  launch_with_process_token-Leaves :
      (command : Text) (session : ℕ) (token : Option ℕ) (s : Agent W)
      → Ends
          (λ dup u. Leaves command (holding dup s.handles) u)
          (launch_with_process_token env command session token s)
  unfolding launch_with_process_token
  launch_with_process_token-Leaves command session none s = inl λ a. refl
  launch_with_process_token-Leaves command session (some token) s =
      elim (Option-cases (lookup_privilege s.world)) [
        | inl e ↦ rw e (inl λ a. refl)
        | inr (luid, e) ↦ rw e (duplicate_and_launch-Leaves command session luid token s)
      ]

  Leaves-ap :
      {command : Text} (f g : ℕ → ℕ) (u : Agent W)
      → ((a : ℕ) → f a ≡ g a)
      → Leaves command f u
      → Leaves command g u
  Leaves-ap f g u same (inl e) = inl λ a. e a ∙ same a
  Leaves-ap f g u same (inr (p, q, made, e)) = inr (p, q, made, λ a. ground (arith, e a, same a))

  held_swap :
      (x y : Option ℕ) (f : ℕ → ℕ) (a : ℕ) → holding x (holding y f) a ≡ holding y (holding x f) a
  held_swap none y f a = refl
  held_swap (some h) none f a = refl
  held_swap (some h) (some k) f a = ground arith

  held_ap :
      (x : Option ℕ) (f g : ℕ → ℕ) → ((a : ℕ) → f a ≡ g a) → (a : ℕ) → holding x f a ≡ holding x g a
  held_ap none f g same a = same a
  held_ap (some h) f g same a = ground (arith, same a)

  close_if-Leaves :
      {command : Text} (x : Option ℕ) (f : ℕ → ℕ) (u : Agent W)
      → Leaves command (holding x f) u
      → Ends (λ _ v. Leaves command f v) (close_if env x u)
  close_if-Leaves none f u left = left
  close_if-Leaves (some h) f u left = elim (drop-Leaves h f u left) [
    | inl e ↦ inl e
    | inr e ↦ inr e
  ]

  -- The three closings, in the code's order.
  closed-Leaves :
      {command : Text} (user dup token : Option ℕ) (f : ℕ → ℕ) (u : Agent W)
      → Leaves command (holding dup (holding token (holding user f))) u
      → Ends
          (λ _ v. Leaves command f v)
          ((close_if env user >>= λ _. close_if env dup >>= λ _. close_if env token) u)
  closed-Leaves {command = command} user dup token f u left =
      let by_user : Leaves command (holding user (holding dup (holding token f))) u =
        Leaves-ap _ _ u
          (λ a. held_ap dup _ _ (held_swap token user f) a ∙ held_swap dup user (holding token f) a)
          left in
      Ends-bind (λ _ v. Leaves command (holding dup (holding token f)) v)
        (λ _ v. Leaves command f v) (close_if env user u) _
        (close_if-Leaves user (holding dup (holding token f)) u by_user)
        λ _ v left.
          Ends-bind (λ _ w. Leaves command (holding token f) w) (λ _ w. Leaves command f w)
            (close_if env dup v) _ (close_if-Leaves dup (holding token f) v left)
            λ _ w left. close_if-Leaves token f w left

  -- `LaunchAppInSession` returns, and on every path has closed the tokens that it opened; what it
  -- leaves open besides is nothing, or exactly the two handles that CreateProcessAsUserA gave for a
  -- process of the command.
  pub launch_app_in_session-Leaves :
      (command : Text) (s : Agent W)
      → Ends (λ _ u. Leaves command s.handles u) (launch_app_in_session env command s)
  unfolding launch_app_in_session
  launch_app_in_session-Leaves command s =
      let session = active_session s.world in
      let user = query_user_token session (
        write_log info (codes "LaunchAppInSession Session Id " ++ (show_nat session ++ codes "l"))
          s.world) in
      let token = open_process_token user.1 in
      let t : Agent W = record s {
        handles = holding token.0 (holding user.0 s.handles);
        world = token.1;
      } in
      Ends-bind (λ dup u. Leaves command (holding dup t.handles) u) _
        (launch_with_process_token env command session token.0 t) _
        (launch_with_process_token-Leaves command session token.0 t)
        λ dup u left. closed-Leaves user.0 dup token.0 s.handles u left

  -- One tool: both handles of the process are closed.
  run_tool-Ends :
      (command message : Text) (s : Agent W)
      → Ends (λ _ u. (a : ℕ) → u.handles a ≡ s.handles a) (run_tool env command message s)
  unfolding run_tool
  run_tool-Ends command message s = elim (Option-cases (create_process command s.world).0) [
    | inl e ↦ rw e (λ a. refl)
    | inr (p, e) ↦ rw e (λ a. ground arith)
  ]

  -- `Run` returns with the handles that were open before, whichever of its processes start.
  pub run-balanced : (s : Agent W) → Ends (λ _ u. (a : ℕ) → u.handles a ≡ s.handles a) (run env s)
  unfolding run
  run-balanced s =
      let t : Agent W = record s {
        world = write_log info (codes "Run Guest agent main loop starting") s.world;
      } in
      Ends-bind (λ _ u. (a : ℕ) → u.handles a ≡ s.handles a) _
        (run_tool env (codes "\"wmiadap\" /f") (codes "XenSvc: Unable to refresh WMI ADAP: ") t) _
        (run_tool-Ends (codes "\"wmiadap\" /f") (codes "XenSvc: Unable to refresh WMI ADAP: ") t)
        λ _ u first.
          Ends-mono
            (run_tool env (codes "\"diskperf\" -y")
              (codes "XenSvc: Cannot enable disk perf counters: ") u)
            (run_tool-Ends (codes "\"diskperf\" -y")
              (codes "XenSvc: Cannot enable disk perf counters: ") u)
            λ _ v second a. second a ∙ first a
