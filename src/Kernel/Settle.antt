-- ===== src/Kernel/Settle.antt =====
-- What is closed where an opening fails.
use winservice.Base.{
  ℕ, ◌==◌, ◌≡◌, refl, ap, true, false, Option, some, pure, Outcome, Outcome-bind, arith,
}
use winservice.Kernel.Env.{status_success, nt_success, XenV4v, KernelEnv, Kernel}
use winservice.Kernel.Requests.{close_some}
use winservice.Kernel.Api.{settle}
use winservice.Kernel.Stands.{no_count, one, both, Stands, Stands-more, Refused, close_some-Stands}
use winservice.Kernel.Open.{close_some-Refused}

module _ {W : Type 0} (env : KernelEnv W)
    (closes : (h : ℕ) (w : W) → nt_success (env.close (some h) w).0 ≡ true) (s : Kernel W) where
  -- What is closed where the opening fails: the file's handle, and the event's in the structure.
  pub settle_failed-Stands :
      (v : XenV4v) (refs : ℕ → ℕ) (hd : Option ℕ) (status : ℕ) (u : Kernel W)
      → (status == status_success) ≡ false
      → Stands s (s.refused) v (both (one v.ctx.recv_event_handle) (one hd)) refs u
      → Outcome
          (λ a w. (a ≡ status) × Stands s (s.refused) v no_count refs w)
          (Refused s)
          (settle env hd status u)
  unfolding settle
  settle_failed-Stands v refs hd status u bad h = rw bad (
      Outcome-bind (λ _. Stands s (s.refused) v (one v.ctx.recv_event_handle) refs) (Refused s)
        (λ (a : ℕ) w. (a ≡ status) × Stands s (s.refused) v no_count refs w) (close_some env hd u) _
        (close_some-Stands env closes s (s.refused) (omega arith) v (one v.ctx.recv_event_handle)
          refs hd u h)
        λ _ w left.
          let e = w.v4v.ctx.recv_event_handle in
          let same : e ≡ v.ctx.recv_event_handle = ap (λ c. c.recv_event_handle) left.context in
          Outcome-bind (λ _. Stands s (s.refused) v no_count refs) (Refused s)
            (λ (a : ℕ) x. (a ≡ status) × Stands s (s.refused) v no_count refs x)
            (close_some env e w) (λ _. pure status)
            (close_some-Stands env closes s (s.refused) (omega arith) v no_count refs e w
              (Stands-more (λ a. omega (arith, ap (λ o. one o a) same)) left))
            λ _ x l. (refl, l))

  pub settle-Refused :
      (hd : Option ℕ) (status : ℕ) (u : Kernel W)
      → (status == status_success) ≡ false
      → Refused s u
      → Outcome (λ a w. (a ≡ status) × Refused s w) (Refused s) (settle env hd status u)
  unfolding settle
  settle-Refused hd status u bad out = rw bad (
      Outcome-bind (λ _. Refused s) (Refused s) (λ (a : ℕ) w. (a ≡ status) × Refused s w)
        (close_some env hd u) _ (close_some-Refused env closes s hd u out)
        λ _ w left.
          Outcome-bind (λ _. Refused s) (Refused s) (λ (a : ℕ) x. (a ≡ status) × Refused s x)
            (close_some env w.v4v.ctx.recv_event_handle w) (λ _. pure status)
            (close_some-Refused env closes s w.v4v.ctx.recv_event_handle w left) λ _ x l. (refl, l))
