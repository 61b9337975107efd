-- ===== src/Kernel/Packets.antt =====
-- Packets for the driver and the wait for its answer, and what stands behind them.
use winservice.Base.{
  ℕ, ◌+◌, ◌<◌, ◌≤◌, ◌==◌, ◌≡◌, ◌⊎◌, refl, inl, inr, Bool, true, false, Bool-cases, Option, none,
  some, Outcome, if◌then◌else◌, arith,
}
use winservice.Kernel.Env.{
  nt_success, status_pending, XenV4v, Asked, KernelEnv, Kernel, waiting, building_for, handing_to,
}
use winservice.Kernel.Requests.{xen_v4v_build_ioctl, xen_v4v_irp_stack, await}
use winservice.Kernel.Stands.{Stands, Refused, Stands-state}

module _ {W : Type 0} (env : KernelEnv W)
    (closes : (h : ℕ) (w : W) → nt_success (env.close (some h) w).0 ≡ true) (s : Kernel W)
    (floor : ℕ) (low : s.refused ≤ floor) (v : XenV4v) (more refs : ℕ → ℕ) where
  open env use {close, create_synchronization_event, build_request, call_driver}

  built-Stands :
      (built : Bool) (world : W) (u : Kernel W)
      → Stands s floor v more refs u
      → Stands s floor v more refs
          (record u { refused = if built then u.refused else u.refused + 1; world = world })
        × (Refused s
              (record u { refused = if built then u.refused else u.refused + 1; world = world })
            ⊎ (built ≡ true))
  built-Stands true world u h =
      (Stands-state h (omega arith) (λ a. omega arith) (λ a. omega arith) refl refl refl, inr refl)
  built-Stands false world u h = (
    Stands-state h (omega arith) (λ a. omega arith) (λ a. omega arith) refl refl refl,
    inl (omega (arith, h.grows, low)),
  )

  building_for-Stands :
      (device : Option ℕ) (d : ℕ) (asked : Asked) (event : Option ℕ) (u : Kernel W)
      → device ≡ some d
      → Stands s floor v more refs u
      → Outcome
          (λ built w. Stands s floor v more refs w × (Refused s w ⊎ (built ≡ true)))
          (Refused s)
          (building_for device build_request asked event u)
  building_for-Stands none d asked event u is h = cc is
  building_for-Stands (some c) d asked event u is h =
      built-Stands (build_request c asked event u.world).0 (build_request c asked event u.world).1 u
        h

  pub build-Stands :
      (d : ℕ) (asked : Asked) (event : Option ℕ) (u : Kernel W)
      → v.dev_object ≡ some d
      → Stands s floor v more refs u
      → Outcome
          (λ built w. Stands s floor v more refs w × (Refused s w ⊎ (built ≡ true)))
          (Refused s)
          (xen_v4v_build_ioctl env asked event u)
  unfolding xen_v4v_build_ioctl
  build-Stands d asked event u has_device h =
      building_for-Stands (u.v4v.dev_object) d asked event u (cc (h.device, has_device)) h

  handing_to-Stands :
      (device : Option ℕ) (d : ℕ) (asked : Asked) (event : Option ℕ) (u : Kernel W)
      → device ≡ some d
      → Stands s floor v more refs u
      → Outcome
          (λ _. Stands s floor v more refs)
          (Refused s)
          (handing_to device call_driver asked event u)
  handing_to-Stands none d asked event u is h = cc is
  handing_to-Stands (some c) d asked event u is h =
      Stands-state h (omega arith) (λ a. omega arith) (λ a. omega arith) refl refl refl

  pub irp_stack-Stands :
      (d : ℕ) (asked : Asked) (event : Option ℕ) (u : Kernel W)
      → v.dev_object ≡ some d
      → Stands s floor v more refs u
      → Outcome (λ _. Stands s floor v more refs) (Refused s) (xen_v4v_irp_stack env asked event u)
  unfolding xen_v4v_irp_stack
  irp_stack-Stands d asked event u has_device h =
      handing_to-Stands (u.v4v.dev_object) d asked event u (cc (h.device, has_device)) h

  waiting-Stands :
      (event : Option ℕ) (u : Kernel W)
      → Stands s floor v more refs u
      → s.refused < floor ⊎ ((e : ℕ) × (event ≡ some e))
      → Outcome (λ _. Stands s floor v more refs) (Refused s) (waiting (env.wait) event u)
  waiting-Stands none u h (inl refused) = omega (arith, refused, h.grows)
  waiting-Stands none u h (inr (e, is)) = cc is
  waiting-Stands (some e) u h made =
      Stands-state h (omega arith) (λ a. omega arith) (λ a. omega arith) refl refl refl

  pub await-Stands :
      (event : Option ℕ) (status : ℕ) (u : Kernel W)
      → Stands s floor v more refs u
      → s.refused < floor ⊎ ((e : ℕ) × (event ≡ some e))
      → Outcome (λ _. Stands s floor v more refs) (Refused s) (await env event status u)
  unfolding await
  await-Stands event status u h made = elim (Bool-cases (status == status_pending)) [
    | inl e ↦ rw e (waiting-Stands event u h made)
    | inr e ↦ rw e h
  ]
