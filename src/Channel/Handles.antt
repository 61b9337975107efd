-- ===== src/Channel/Handles.antt =====
-- The handles of V4V channels.
use winservice.Base.{
  ℕ, ◌≡◌, ◌⊎◌, refl, inl, inr, Bool, true, false, Bool-cases, Option-cases, Option, none, some,
  Ends, Ends-bind, Ends-mono, pure, plus, minus-plus, ok, if◌then◌else◌, arith,
}
use winservice.Channel.Env.{
  FileHandle, invalid_handle, null_handle, file, V4vContext, AcceptValues, Overlapped, ChannelEnv,
  Opened,
}
use winservice.Channel.Api.{
  is_overlapped, lacks_overlapped, accepted, discard, keep_or_discard, open_channel, accept_channel,
  new_channel, v4v_open, v4v_accept, close_event, close_file, v4v_close,
}

-- Both handles of a channel are open, besides those of before.
abbrev pub with_channel : Option (ℕ × ℕ) → (ℕ → ℕ) → ℕ → ℕ
with_channel none f = f
with_channel (some (hd, event)) f = plus event (plus hd f)

abbrev pub opened_context : V4vContext → ℕ → ℕ → V4vContext
opened_context c hd event = record c { v4v_handle = file hd; recv_event = some event }

-- An answer of TRUE with the two handles of the channel open and in the context, or of FALSE with the
-- handles as before.
abbrev pub Opens : V4vContext → (ℕ → ℕ) → Bool → Option V4vContext → (ℕ → ℕ) → Type 0
Opens c f true out g =
    (hd : ℕ) × (event : ℕ) × (out ≡ some (opened_context c hd event))
    × ((a : ℕ) → g a ≡ plus event (plus hd f) a)
Opens c f false out g = (a : ℕ) → g a ≡ f a

module _ {W : Type 0} (env : ChannelEnv W)
    (closes : (h : ℕ) (w : W) → (env.close_handle h w).0 ≡ true) where
  open env use {
    set_last_error, last_error, create_file, create_event, close_handle, control, control_accept,
  }

  new_channel-Ends :
      (c : V4vContext) (s : Opened W)
      → Ends
          (λ channel u. (a : ℕ) → u.handles a ≡ with_channel channel s.handles a)
          (new_channel env c s)
  unfolding new_channel
  new_channel-Ends c s =
      let created = create_file (is_overlapped c) s.world in
      elim (Option-cases created.0) [
        | inl e ↦ rw e (λ a. refl)
        | inr (hd, e) ↦ rw e (elim (Option-cases (create_event created.1).0) [
          | inl n ↦ rw (n, closes hd (create_event created.1).1) (λ a. minus-plus hd s.handles a)
          | inr (event, m) ↦ rw m (λ a. refl)
        ])
      ]

  discard-Ends :
      (event hd : ℕ) (f : ℕ → ℕ) (s : Opened W)
      → ((a : ℕ) → s.handles a ≡ plus event (plus hd f) a)
      → Ends (λ _ u. (a : ℕ) → u.handles a ≡ f a) (discard env event hd s)
  unfolding discard
  discard-Ends event hd f s held =
      rw (closes event s.world, closes hd (close_handle event s.world).1)
        (λ a. ground (arith, held a))

  keep_or_discard-Ends :
      {A : Type 0} (P : A → Opened W → Type 0) (event hd : ℕ) (f : ℕ → ℕ) (kept dropped : A)
      (done : Bool) (s : Opened W)
      → ((a : ℕ) → s.handles a ≡ plus event (plus hd f) a)
      → P kept s
      → ((u : Opened W) → ((a : ℕ) → u.handles a ≡ f a) → P dropped u)
      → Ends P (keep_or_discard env event hd kept dropped done s)
  unfolding keep_or_discard
  keep_or_discard-Ends P event hd f kept dropped true s held keeps drops = keeps
  keep_or_discard-Ends P event hd f kept dropped false s held keeps drops =
      Ends-bind (λ _ u. (a : ℕ) → u.handles a ≡ f a) _ (discard env event hd s) _
        (discard-Ends event hd f s held) λ _ u left. drops u left

  open_channel-Opens :
      (c : V4vContext) (ring_size : ℕ) (ov : Overlapped) (f : ℕ → ℕ) (channel : Option (ℕ × ℕ))
      (s : Opened W)
      → ((a : ℕ) → s.handles a ≡ with_channel channel f a)
      → Ends
          (λ (r : Bool × Option V4vContext) u. Opens c f r.0 r.1 u.handles)
          (open_channel env c ring_size ov channel s)
  unfolding open_channel accepted
  open_channel-Opens c ring_size ov f none s held = held
  open_channel-Opens c ring_size ov f (some (hd, event)) s held =
      keep_or_discard-Ends _ event hd f _ _ _ _ held (hd, event, refl, held) λ u left. left

  accept_channel-Opens :
      (c out : V4vContext) (ov : Overlapped) (f : ℕ → ℕ) (channel : Option (ℕ × ℕ)) (s : Opened W)
      → ((a : ℕ) → s.handles a ≡ with_channel channel f a)
      → Ends
          (λ (r : Bool × Option V4vContext × Option AcceptValues) u. Opens c f r.0 r.1 u.handles)
          (accept_channel env c out ov channel s)
  unfolding accept_channel accepted
  accept_channel-Opens c out ov f none s held = held
  accept_channel-Opens c out ov f (some (hd, event)) s held =
      keep_or_discard-Ends _ event hd f _ _ _ _ held (hd, event, refl, held) λ u left. left

  v4v_open-Opens :
      (c : V4vContext) (ring_size : ℕ) (ov : Overlapped) (s : Opened W)
      → Ends (λ r u. Opens c s.handles r.0 r.1 u.handles) (v4v_open env (some c) ring_size ov s)
  unfolding v4v_open
  v4v_open-Opens c ring_size ov s =
      let empty = record c { v4v_handle = invalid_handle; recv_event = none } in
      elim (Bool-cases (lacks_overlapped c ov)) [
        | inl e ↦ rw e (λ a. refl)
        | inr e ↦ rw e (
            Ends-bind (λ channel u. (a : ℕ) → u.handles a ≡ with_channel channel s.handles a) _
              (new_channel env empty s) _ (new_channel-Ends empty s)
              λ channel t held. open_channel-Opens empty ring_size ov s.handles channel t held)
      ]

  -- Where `CloseHandle` closes what is open: V4vAccept returns TRUE with a context that holds a new file
  -- and a new event, both open besides the handles of before, or FALSE with the handles as before.
  pub v4v_accept-Opens :
      (c out : V4vContext) (values : AcceptValues) (ov : Overlapped) (s : Opened W)
      → Ends
          (λ r u. Opens c s.handles r.0 r.1 u.handles)
          (v4v_accept env (some c) (some out) (some values) ov s)
  unfolding v4v_accept
  v4v_accept-Opens c out values ov s = elim (Bool-cases (lacks_overlapped c ov)) [
    | inl e ↦ rw e (λ a. refl)
    | inr e ↦ rw e (
        Ends-bind (λ channel u. (a : ℕ) → u.handles a ≡ with_channel channel s.handles a) _
          (new_channel env c s) _ (new_channel-Ends c s)
          λ channel t held. accept_channel-Opens c out ov s.handles channel t held)
  ]

  -- What V4vOpen has opened, V4vClose closes.
  opened-closed :
      (c : V4vContext) (f : ℕ → ℕ) (hd event : ℕ) (t : Opened W)
      → ((a : ℕ) → t.handles a ≡ plus event (plus hd f) a)
      → Ends
          (λ (r : Bool × Option V4vContext) u.
            (r.0 ≡ true)
            × (r.1 ≡ some (record c { v4v_handle = invalid_handle; recv_event = none }))
            × ((a : ℕ) → u.handles a ≡ f a))
          (v4v_close env (some (opened_context c hd event)) t)
  unfolding v4v_close close_event close_file
  opened-closed c f hd event t held =
      rw (closes event t.world, closes hd (close_handle event t.world).1)
        (refl, refl, λ a. ground (arith, held a))

  open-then_close :
      (c : V4vContext) (f : ℕ → ℕ) (answer : Bool) (out : Option V4vContext) (t : Opened W)
      → Opens c f answer out t.handles
      → Ends
          (λ (r : Bool × Option V4vContext) u.
            ((answer ≡ false)
              ⊎ ((r.0 ≡ true)
                  × (r.1 ≡ some (record c { v4v_handle = invalid_handle; recv_event = none }))))
            × ((a : ℕ) → u.handles a ≡ f a))
          ((if answer then v4v_close env out else pure (answer, out)) t)
  open-then_close c f false out t same = (inl refl, same)
  open-then_close c f true out t (hd, event, is, held) = rw is (
      Ends-mono (v4v_close env (some (opened_context c hd event)) t)
        (opened-closed c f hd event t held) λ r u closed. (inr (closed.0, closed.1), closed.2))

  -- Where `CloseHandle` closes what is open: when V4vOpen is called and then, if it returned TRUE,
  -- V4vClose, the handles that are open are those of before, whatever fails; and if V4vOpen returned
  -- TRUE, so does V4vClose, and the context holds no handle.
  pub v4v_open-closed :
      (c : V4vContext) (ring_size : ℕ) (ov : Overlapped) (s : Opened W)
      → Ends
          (λ (opened : Bool × Option V4vContext) t.
            Ends
              (λ (r : Bool × Option V4vContext) u.
                ((opened.0 ≡ false)
                  ⊎ ((r.0 ≡ true)
                      × (r.1 ≡ some (record c { v4v_handle = invalid_handle; recv_event = none }))))
                × ((a : ℕ) → u.handles a ≡ s.handles a))
              ((if opened.0 then v4v_close env opened.1 else pure opened) t))
          (v4v_open env (some c) ring_size ov s)
  v4v_open-closed c ring_size ov s =
      Ends-mono (v4v_open env (some c) ring_size ov s) (v4v_open-Opens c ring_size ov s)
        λ opened t opens. open-then_close c s.handles opened.0 opened.1 t opens

  close-fields :
      (hd : FileHandle) (event : Option ℕ) (flags : ℕ) (s : Opened W)
      → Ends
          (λ (r : Bool × Option V4vContext) u.
            (r.0 ≡ true) × (v4v_close env r.1 u ≡ ok (true, r.1) u))
          (v4v_close env (some (record { v4v_handle = hd; recv_event = event; flags = flags })) s)
  unfolding v4v_close close_event close_file
  close-fields invalid_handle none flags s = (refl, refl)
  close-fields null_handle none flags s = (refl, refl)
  close-fields (file hd) none flags s = rw (closes hd s.world) (refl, refl)
  close-fields invalid_handle (some event) flags s = rw (closes event s.world) (refl, refl)
  close-fields null_handle (some event) flags s = rw (closes event s.world) (refl, refl)
  close-fields (file hd) (some event) flags s =
      rw (closes event s.world, closes hd (close_handle event s.world).1) (refl, refl)

  -- Where `CloseHandle` closes what is open: V4vClose of a context returns TRUE, and a second V4vClose of
  -- what it leaves returns TRUE again and changes nothing.
  pub v4v_close-twice :
      (c : V4vContext) (s : Opened W)
      → Ends
          (λ (r : Bool × Option V4vContext) u.
            (r.0 ≡ true) × (v4v_close env r.1 u ≡ ok (true, r.1) u))
          (v4v_close env (some c) s)
  v4v_close-twice c s = close-fields (c.v4v_handle) (c.recv_event) (c.flags) s
