-- ===== src/Log/Write/Mutex.antt =====
-- The critical section across `defLogFunc` and the logging functions.
use winservice.Base.{
  ℕ, ◌+◌, ◌≡◌, ◌==◌, refl, sym, ◌∙◌, inl, inr, Bool, Bool-cases, Option-cases, Text, Option, none,
  some, Outcome, Outcome-bind, arith,
}
use winservice.Log.Env.{LogEnv}
use winservice.Log.State.{Handler, def_log, user_log, Globals, form_size, log_buf_size}
use winservice.Log.Path.{set_log_path}
use winservice.Log.Path.Choice.{set_log_path-SameMode}
use winservice.Log.Write.{
  append_message, append_if_allocated, my_malloc, get_system_time, allocate_and_append,
  def_log_func, log_message,
}

-- The library loaded or not, with a handler, and its critical section entered `n` times.
abbrev pub InMode : {W : Type 0} → Bool → Option Handler → ℕ → Globals W → Type 0
InMode i l n u = (u.initialized ≡ i) × (u.log ≡ l) × (u.mutex ≡ some n)

module _ {W D E : Type 0} (env : LogEnv W D E) (i : Bool) (l : Option Handler) (n : ℕ) where
  abbrev Released : {A : Type 0} → A → Globals W → Type 0
  Released _ u = InMode i l n u

  abbrev Held : Globals W → Type 0
  Held u = InMode i l (n + 1) u

  append_message-Released :
      (prefix message : Text) (tmp : ℕ) (time : ℕ × Text) (final : ℕ) (s : Globals W)
      → Held s
      → Outcome Released Held (append_message env prefix message tmp time final s)
  unfolding append_message
  append_message-Released prefix message tmp time final s h = ground arith

  append_if_allocated-Released :
      (prefix message : Text) (tmp : Option ℕ) (time : Option (ℕ × Text)) (final : Option ℕ)
      (s : Globals W)
      → Held s
      → Outcome Released Held (append_if_allocated env prefix message tmp time final s)
  unfolding append_if_allocated
  append_if_allocated-Released prefix message none time final s h = ground arith
  append_if_allocated-Released prefix message (some p) none final s h = ground arith
  append_if_allocated-Released prefix message (some p) (some t) none s h = ground arith
  append_if_allocated-Released prefix message (some p) (some t) (some q) s h =
      append_message-Released prefix message p t q s h

  my_malloc-Held :
      (size : ℕ) (s : Globals W) → Held s → Outcome (λ _. Held) Held (my_malloc env size s)
  unfolding my_malloc
  my_malloc-Held size s h = h

  get_system_time-Held : (s : Globals W) → Held s → Outcome (λ _. Held) Held (get_system_time env s)
  unfolding get_system_time
  get_system_time-Held s h = ground arith

  allocate_and_append-Released :
      (prefix message : Text) (s : Globals W)
      → Held s
      → Outcome Released Held (allocate_and_append env prefix message s)
  unfolding allocate_and_append
  allocate_and_append-Released prefix message s h =
      Outcome-bind (λ _. Held) Held Released (my_malloc env form_size s) _
        (my_malloc-Held form_size s h)
        λ tmp s1 h1.
          Outcome-bind (λ _. Held) Held Released (get_system_time env s1) _
            (get_system_time-Held s1 h1)
            λ time s2 h2.
              Outcome-bind (λ _. Held) Held Released (my_malloc env log_buf_size s2) _
                (my_malloc-Held log_buf_size s2 h2)
                λ final s3 h3. append_if_allocated-Released prefix message tmp time final s3 h3

  set_log_path-Held : (s : Globals W) → Held s → Outcome (λ _. Held) Held (set_log_path env s)
  set_log_path-Held s h = ground (arith, set_log_path-SameMode env s)

  pub def_log_func-Released :
      (prefix message : Text) (s : Globals W)
      → InMode i l n s
      → Outcome Released Held (def_log_func env prefix message s)
  unfolding def_log_func
  def_log_func-Released prefix message s (same, log, h) =
      let entered : Globals W = record s { mutex = some (n + 1) } in
      rw h (
        Outcome-bind (λ _. Held) Held Released (set_log_path env entered) _
          (set_log_path-Held entered (same, log, refl))
          λ failed t held. elim (Bool-cases (failed == 0)) [
            | inl chosen ↦ rw chosen (allocate_and_append-Released prefix message t held)
            | inr none_left ↦ rw none_left (ground (arith, held))
          ])

  -- A message through whatever handler is set.
  pub log_message-Released :
      (prefix message : Text) (s : Globals W)
      → InMode i l n s
      → Outcome Released Held (log_message env prefix message s)
  unfolding log_message
  log_message-Released prefix message s h = elim (Option-cases s.log) [
    | inl e ↦ simp (log_message, e) (h.0, sym e ∙ h.1, h.2)
    | inr (def_log, e) ↦ simp (log_message, e) (def_log_func-Released prefix message s h)
    | inr (user_log f, e) ↦ simp (log_message, e) (h.0, sym e ∙ h.1, h.2)
  ]

module _ {W D E : Type 0} (env : LogEnv W D E) where
  -- Whatever the state and the environment, `defLogFunc` leaves the critical section as often as it
  -- entered it when it returns; where the process ends in it, the section is still entered.
  pub def_log_func-mutex :
      (prefix message : Text) (n : ℕ) (s : Globals W)
      → s.mutex ≡ some n
      → Outcome
          (λ _ u. u.mutex ≡ some n)
          (λ u. u.mutex ≡ some (n + 1))
          (def_log_func env prefix message s)
  def_log_func-mutex prefix message n s h =
      ground
        (arith, def_log_func-Released env s.initialized s.log n prefix message s (refl, refl, h))
