-- ===== src/Channel/Tests.antt =====
-- A small driver, and channels opened on it.
use winservice.Base.{
  ℕ, plus, ◌+◌, ◌≡◌, ◌⊎◌, refl, Bool, true, false, Option, none, some, Ends, ok, if◌then◌else◌,
}
use winservice.Channel.Env.{invalid_handle, file, V4vContext, AcceptValues, ChannelEnv, Opened}
use winservice.Channel.Api.{
  no_values, lacks_overlapped, accepted, new_channel, keep_or_discard, open_channel, v4v_open,
  v4v_accept, v4v_close, checked_request, v4v_listen,
}
use winservice.Channel.Handles.{Opens, v4v_accept-Opens, v4v_open-closed, v4v_close-twice}

-- The handles are numbered, and the driver takes a request or refuses it.
abbrev Driver : Type 0
Driver = ℕ × ℕ × Bool

abbrev small_env : ChannelEnv Driver
small_env = record {
  set_last_error = λ e w. (w.0, e, w.2);
  last_error = λ w. w.1;
  create_file = λ o w. (some w.0, (w.0 + 1, w.1, w.2));
  create_event = λ w. (some w.0, (w.0 + 1, w.1, w.2));
  close_handle = λ h w. (true, w);
  control = λ h r o w. (w.2, w);
  control_accept = λ h v o out w. ((w.2, v), w);
  control_info = λ h v o out w. ((w.2, v), w);
}

small_closes : (h : ℕ) (w : Driver) → (small_env.close_handle h w).0 ≡ true
small_closes h w = refl

abbrev fresh : V4vContext
fresh = record { v4v_handle = invalid_handle; recv_event = none; flags = 0 }

abbrev nothing_open : Bool → Opened Driver
nothing_open takes = record { handles = λ _. 0; world = (5, 0, takes) }

-- The context with its file and its event.
opened_run :
    v4v_open small_env (some fresh) 4096 none (nothing_open true)
    ≡ ok
        (true, some (record fresh { v4v_handle = file 5; recv_event = some 6 }))
        (record { handles = plus 6 (plus 5 (λ _. 0)); world = (7, 0, true) })
unfolding v4v_open lacks_overlapped new_channel open_channel accepted keep_or_discard
opened_run = refl

v4v_open-closed_example :
    Ends
      (λ (opened : Bool × Option V4vContext) t.
        Ends
          (λ (r : Bool × Option V4vContext) u.
            ((opened.0 ≡ false) ⊎ ((r.0 ≡ true) × (r.1 ≡ some fresh)))
            × ((a : ℕ) → u.handles a ≡ 0))
          ((if opened.0 then v4v_close small_env opened.1 else ok opened) t))
      (v4v_open small_env (some fresh) 4096 none (nothing_open true))
v4v_open-closed_example = v4v_open-closed small_env small_closes fresh 4096 none (nothing_open true)

closed_twice :
    Ends
      (λ (r : Bool × Option V4vContext) u.
        (r.0 ≡ true) × (v4v_close small_env r.1 u ≡ ok (true, r.1) u))
      (v4v_close small_env
        (some (record fresh { v4v_handle = file 5; recv_event = some 6 }))
        (nothing_open true))
closed_twice =
    v4v_close-twice small_env small_closes
      (record fresh { v4v_handle = file 5; recv_event = some 6 }) (nothing_open true)

v4v_accept-Opens_example :
    Ends
      (λ (r : Bool × Option V4vContext × Option AcceptValues) u.
        Opens fresh (λ _. 0) r.0 r.1 u.handles)
      (v4v_accept small_env (some fresh) (some fresh) (some no_values) none (nothing_open false))
v4v_accept-Opens_example =
    v4v_accept-Opens small_env small_closes fresh fresh no_values none (nothing_open false)

-- An overlapped channel has to be used with a structure.
refused :
    v4v_listen small_env (some (record fresh { flags = 1 })) 8 none (nothing_open true)
    ≡ ok false (record (nothing_open true) { world = (5, 87, true) })
unfolding v4v_listen checked_request lacks_overlapped
refused = refl
