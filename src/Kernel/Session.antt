-- ===== src/Kernel/Session.antt =====
-- A channel that a driver opens, uses and closes.
use mathlib.Core.Path.{subst}
use winservice.Base.{
  ℕ, ◌+◌, ◌==◌, ◌≡◌, ◌≢◌, ◌⊎◌, refl, sym, inl, inr, true, false, Bool-cases, none, some, List, [],
  ◌∷◌, pure, ◌>>=◌, ◌>>◌, Outcome, Outcome-bind, if◌then◌else◌, arith,
}
use winservice.Kernel.Env.{
  status_success, nt_success, v4v_closed, v4v_error, V4vContext, updating, closing, releasing,
  XenV4v, write, read, KernelEnv, Kernel, KernelCmd,
}
use winservice.Kernel.Requests.{with_state}
use winservice.Kernel.Api.{
  xen_v4v_bind, xen_v4v_connect, xen_v4v_connect_wait, xen_v4v_disconnect, xen_v4v_write,
  xen_v4v_read, xen_v4v_open_dgram_port, xen_v4v_open_device, bind_and_connect, xen_v4v_close,
  close_v4v_handle,
}
use winservice.Kernel.Stands.{one, both, Stands, Refused}
use winservice.Kernel.Calls.{
  bind-Kept, connect-Kept, connect_wait-Kept, disconnect-Kept, transfer-Kept,
}
use winservice.Kernel.Opening.{opened_as, OpenDone, open_with-OpenDone}

-- The calls that a driver makes on an opened channel.
pub data Call : Type 0 where
  waits disconnects : Call
  connects binds : (domain port : ℕ) → Call
  writes reads : (buf len iosb : ℕ) → Call

-- How a driver opens: for datagrams, or for a connection.
pub data Kind : Type 0 where
  datagrams connection : Kind

module _ {W : Type 0} (env : KernelEnv W) where
  unfoldable pub run_call : Call → KernelCmd W ℕ
  run_call waits = xen_v4v_connect_wait env
  run_call disconnects = xen_v4v_disconnect env
  run_call (connects domain port) = xen_v4v_connect env domain port
  run_call (binds domain port) = xen_v4v_bind env domain port
  run_call (writes buf len iosb) = xen_v4v_write env buf len iosb
  run_call (reads buf len iosb) = xen_v4v_read env buf len iosb

  unfoldable pub run_calls : List Call → KernelCmd W (Unit {0})
  unfolding run_call
  run_calls [] = pure tt
  run_calls (call ∷ calls) = do run_call call; run_calls calls

  unfoldable pub run_open : Kind → (ring_size domain port : ℕ) → KernelCmd W ℕ
  run_open datagrams ring_size domain port = xen_v4v_open_dgram_port env ring_size domain port
  run_open connection ring_size domain port = xen_v4v_open_device env ring_size domain port

  unfoldable pub use_and_close : List Call → ℕ → KernelCmd W ℕ
  unfolding run_calls
  use_and_close calls status =
      if status == status_success
      then (do run_calls calls; xen_v4v_close env; pure status)
      else pure status

  -- The whole use of a channel, and the status of the opening.
  unfoldable pub session : Kind → (ring_size domain port : ℕ) → List Call → KernelCmd W ℕ
  unfolding run_open use_and_close
  session kind ring_size domain port calls = do
    status ← run_open kind ring_size domain port
    use_and_close calls status

module _ {W : Type 0} (env : KernelEnv W)
    (closes : (h : ℕ) (w : W) → nt_success (env.close (some h) w).0 ≡ true) (s : Kernel W) where
  run_call-Kept :
      (v : XenV4v) (refs : ℕ → ℕ) (d : ℕ) (more : ℕ → ℕ) (call : Call) (u : Kernel W)
      → v.dev_object ≡ some d
      → Stands s (s.refused) v more refs u
      → Outcome (λ _. Stands s (s.refused) v more refs) (Refused s) (run_call env call u)
  unfolding run_call xen_v4v_write xen_v4v_read
  run_call-Kept v refs d more waits u is h =
      connect_wait-Kept env closes s v refs d is (s.refused) more u (omega arith) h
  run_call-Kept v refs d more disconnects u is h =
      disconnect-Kept env closes s v refs d is (s.refused) more u (omega arith) h
  run_call-Kept v refs d more (connects domain port) u is h =
      connect-Kept env closes s v refs d is (s.refused) more domain port u (omega arith) h
  run_call-Kept v refs d more (binds domain port) u is h =
      bind-Kept env closes s v refs d is (s.refused) more domain port u (omega arith) h
  run_call-Kept v refs d more (writes buf len iosb) u is h =
      transfer-Kept env closes s v refs d is (s.refused) more (write buf len iosb) u (omega arith) h
  run_call-Kept v refs d more (reads buf len iosb) u is h =
      transfer-Kept env closes s v refs d is (s.refused) more (read buf len iosb) u (omega arith) h

  run_calls-Kept :
      (v : XenV4v) (refs : ℕ → ℕ) (d : ℕ) (more : ℕ → ℕ) (calls : List Call) (u : Kernel W)
      → v.dev_object ≡ some d
      → Stands s (s.refused) v more refs u
      → Outcome (λ _. Stands s (s.refused) v more refs) (Refused s) (run_calls env calls u)
  unfolding run_calls
  run_calls-Kept v refs d more [] u is h = h
  run_calls-Kept v refs d more (call ∷ calls) u is h =
      Outcome-bind (λ _. Stands s (s.refused) v more refs) (Refused s)
        (λ _. Stands s (s.refused) v more refs) (run_call env call u) (λ _. run_calls env calls)
        (run_call-Kept v refs d more call u is h)
        λ _ w left. run_calls-Kept v refs d more calls w is left

  -- The channel is closed, and the file object is referenced.
  abbrev pub ClosedFor : (file : ℕ) → Kernel W → Type 0
  ClosedFor file u =
      ((a : ℕ) → u.opened a + s.closed a ≡ u.closed a + s.opened a)
      × (u.v4v.state ≡ v4v_closed)
      × (u.v4v.file_object ≡ some file)
      × ((a : ℕ)
          → u.referenced a + s.dereferenced a
            ≡ u.dereferenced a + s.referenced a + one (some file) a)

  module _ (hd event object file device : ℕ) where
    abbrev close_of : V4vContext → KernelCmd W ℕ
    close_of ctx = do
      releasing (env.dereference_object) ctx.recv_event
      first ← closing (env.close) ctx.recv_event_handle
      status ← close_v4v_handle env ctx.v4v_handle first
      updating (with_state (if nt_success status then v4v_closed else v4v_error))
      pure status

    close-ClosedFor :
        (u : Kernel W)
        → Stands s
            (s.refused)
            (opened_as env closes s hd event object file device)
            (both (one (some event)) (one (some hd)))
            (both (one (some file)) (one (some object)))
            u
        → Outcome (λ _. ClosedFor file) (Refused s) (xen_v4v_close env u)
    unfolding xen_v4v_close close_v4v_handle
    close-ClosedFor u h =
        subst (λ ctx. Outcome (λ _. ClosedFor file) (Refused s) (close_of ctx u)) (sym (h.context))
          (let w = env.dereference_object object u.world in
            rw (closes event w, closes hd (env.close (some event) w).1)
              (λ a. ground (arith, h.handles a), refl, h.file, λ a. ground (arith, h.references a)))

  -- What holds behind a session.
  abbrev pub Ended : ℕ → Kernel W → Type 0
  Ended status u =
      ((status ≡ status_success) × (file : ℕ) × ClosedFor file u)
      ⊎ ((status ≢ status_success) × ((a : ℕ) → u.opened a + s.closed a ≡ u.closed a + s.opened a))
      ⊎ ((status ≢ status_success) × Refused s u)

  use_and_close-Ended :
      (calls : List Call) (status : ℕ) (u : Kernel W)
      → OpenDone env closes s status u
      → Outcome Ended (Refused s) (use_and_close env calls status u)
  unfolding use_and_close
  use_and_close-Ended calls status u (inl (good, hd, event, object, file, device, h)) =
      let v = opened_as env closes s hd event object file device in
      let held = both (one (some event)) (one (some hd)) in
      let refs = both (one (some file)) (one (some object)) in
      let e : (status == status_success) ≡ true = ground (arith, good) in
      rw e (
        Outcome-bind (λ _. Stands s (s.refused) v held refs) (Refused s) Ended
          (run_calls env calls u) (λ _. xen_v4v_close env >> pure status)
          (run_calls-Kept v refs device held calls u refl h)
          λ _ w left.
            Outcome-bind (λ _. ClosedFor file) (Refused s) Ended (xen_v4v_close env w)
              (λ _. pure status) (close-ClosedFor hd event object file device w left)
              λ _ x closed. inl (good, file, closed))
  use_and_close-Ended calls status u (inr (inl (bad, same))) =
      let e : (status == status_success) ≡ false = ground (arith, bad) in
      rw e (inr (inl (bad, same)))
  use_and_close-Ended calls status u (inr (inr (bad, out))) =
      let e : (status == status_success) ≡ false = ground (arith, bad) in
      rw e (inr (inr (bad, out)))

  bind_and_connect-Kept :
      (v : XenV4v) (refs : ℕ → ℕ) (d : ℕ) (more : ℕ → ℕ) (domain port : ℕ) (u : Kernel W)
      → v.dev_object ≡ some d
      → Stands s (s.refused) v more refs u
      → Outcome
          (λ _. Stands s (s.refused) v more refs)
          (Refused s)
          (bind_and_connect env domain port u)
  unfolding bind_and_connect
  bind_and_connect-Kept v refs d more domain port u is h =
      Outcome-bind (λ _. Stands s (s.refused) v more refs) (Refused s)
        (λ _. Stands s (s.refused) v more refs) (xen_v4v_bind env domain port u) _
        (bind-Kept env closes s v refs d is (s.refused) more domain port u (omega arith) h)
        λ (status : ℕ) w left. elim (Bool-cases (status == status_success)) [
          | inl e ↦ rw e (
              connect-Kept env closes s v refs d is (s.refused) more domain port w (omega arith)
                left)
          | inr e ↦ rw e left
        ]

  run_open-OpenDone :
      (kind : Kind) (ring_size domain port : ℕ)
      → s.v4v.file_object ≡ none
      → s.v4v.ctx.recv_event_handle ≡ none
      → Outcome (OpenDone env closes s) (Refused s) (run_open env kind ring_size domain port s)
  unfolding run_open xen_v4v_open_dgram_port xen_v4v_open_device
  run_open-OpenDone datagrams ring_size domain port unset_file unset_event =
      open_with-OpenDone env closes s unset_file unset_event (xen_v4v_bind env domain port)
        (λ v d refs more w is h.
          bind-Kept env closes s v refs d is (s.refused) more domain port w (omega arith) h)
        ring_size
  run_open-OpenDone connection ring_size domain port unset_file unset_event =
      open_with-OpenDone env closes s unset_file unset_event (bind_and_connect env domain port)
        (λ v d refs more w is h. bind_and_connect-Kept v refs d more domain port w is h) ring_size

  -- Where `ZwClose` closes what is open, on a structure with no file object and no event: a channel that
  -- is opened, for datagrams or a connection, used by any calls and closed gets a fault only behind the
  -- refusal of an event, a packet or a reference. If the opening answers `STATUS_SUCCESS`, the session
  -- returns with the state V4vClosed, all handles opened since are closed as often as they were opened,
  -- and of the references that of the file object alone is left. If it answers another status, the
  -- handles are closed likewise, or an event, a packet or a reference was refused.
  pub session-Ended :
      (kind : Kind) (ring_size domain port : ℕ) (calls : List Call)
      → s.v4v.file_object ≡ none
      → s.v4v.ctx.recv_event_handle ≡ none
      → Outcome Ended (Refused s) (session env kind ring_size domain port calls s)
  unfolding session
  session-Ended kind ring_size domain port calls unset_file unset_event =
      Outcome-bind (OpenDone env closes s) (Refused s) Ended
        (run_open env kind ring_size domain port s) (use_and_close env calls)
        (run_open-OpenDone kind ring_size domain port unset_file unset_event)
        λ status w done. use_and_close-Ended calls status w done
