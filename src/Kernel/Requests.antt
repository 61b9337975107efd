-- ===== src/Kernel/Requests.antt =====
-- The structure, and how inc/v4vkapi.h makes its requests of the driver. The structure that a caller
-- hands in is the state's.
use winservice.Base.{
  ℕ, ◌==◌, ◌||◌, Bool, Option, none, some, pure, abort, ◌>>=◌, ◌>>◌, if◌then◌else◌,
}
use winservice.Kernel.Env.{
  status_success, status_pending, status_unsuccessful, nt_success, V4vStatusType, XenV4v, Asked,
  KernelEnv, KernelCmd, updating, field, opening, closing, creating, building_for, handing_to,
  waiting,
}

abbrev pub with_flags : ℕ → XenV4v → XenV4v
with_flags flags v = record v { ctx = record v.ctx { flags = flags } }

abbrev pub with_state : V4vStatusType → XenV4v → XenV4v
with_state state v = record v { state = state }

abbrev pub with_handle : Option ℕ → XenV4v → XenV4v
with_handle h v = record v { ctx = record v.ctx { v4v_handle = h } }

abbrev pub with_event_handle : Option ℕ → XenV4v → XenV4v
with_event_handle h v = record v { ctx = record v.ctx { recv_event_handle = h } }

-- What a reference stores where it succeeds.
abbrev pub with_event : Option ℕ → XenV4v → XenV4v
with_event none v = v
with_event (some event) v = record v { ctx = record v.ctx { recv_event = some event } }

abbrev pub with_file : Option ℕ → XenV4v → XenV4v
with_file none v = v
with_file (some file) v = record v { file_object = some file }

abbrev pub with_device : ℕ → XenV4v → XenV4v
with_device device v = record v { dev_object = some device }

abbrev pub with_objects : Bool → ℕ → ℕ → XenV4v → XenV4v
with_objects found file device v =
    if found then record v { file_object = some file; dev_object = some device } else v

module _ {W : Type 0} (env : KernelEnv W) where
  open env use {
    get_device_object, create_file, create_event, close, create_synchronization_event,
    reference_object, dereference_object, device_of, build_request, call_driver, free_pool,
  }

  unfoldable pub v4v_handle : KernelCmd W (Option ℕ)
  v4v_handle = field (λ v. v.ctx.v4v_handle)

  unfoldable pub v4v_set_flag : ℕ → KernelCmd W (Unit {0})
  v4v_set_flag flags = updating (with_flags flags)

  unfoldable pub v4v_flag : KernelCmd W ℕ
  v4v_flag = field (λ v. v.ctx.flags)

  unfoldable pub v4v_set_state : V4vStatusType → KernelCmd W (Unit {0})
  v4v_set_state state = updating (with_state state)

  unfoldable pub v4v_state : KernelCmd W V4vStatusType
  v4v_state = field (λ v. v.state)

  unfoldable pub xen_v4v_dev_object : KernelCmd W ℕ
  xen_v4v_dev_object s =
      let r = get_device_object s.world in
      (do updating (with_objects (nt_success r.0.0) r.0.1 r.0.2); pure r.0.0)
        (record s { world = r.1 })

  unfoldable pub xen_v4v_build_ioctl : Asked → Option ℕ → KernelCmd W Bool
  xen_v4v_build_ioctl asked event = do
    device ← field (λ v. v.dev_object)
    building_for device build_request asked event

  -- The stack location of a packet, and `IoCallDriver`.
  unfoldable pub xen_v4v_irp_stack : Asked → Option ℕ → KernelCmd W ℕ
  xen_v4v_irp_stack asked event = do
    device ← field (λ v. v.dev_object)
    handing_to device call_driver asked event

  unfoldable pub xen_v4v_create_event : KernelCmd W (Option ℕ)
  xen_v4v_create_event = do r ← opening create_event; pure r.1

  -- The event and its handle. Where the first call fails, the second one's event is dropped.
  unfoldable pub second_event : Option ℕ × Option ℕ → KernelCmd W (Option ℕ × Option ℕ)
  second_event (some event, h) = pure (some event, h)
  second_event (none, h) = do r ← creating create_synchronization_event; pure (none, r.1)

  unfoldable pub xen_v4v_create_kevent : KernelCmd W (Option ℕ × Option ℕ)
  unfolding second_event
  xen_v4v_create_kevent = do r ← creating create_synchronization_event; second_event r

  -- `if (h) ZwClose(h)`
  unfoldable pub close_some : Option ℕ → KernelCmd W (Unit {0})
  close_some none = pure tt
  close_some (some h) = do closing close (some h); pure tt

  -- The driver is called, and a status that is neither of success nor of waiting becomes one of failure.
  unfoldable pub hand_over : Asked → Option ℕ → KernelCmd W ℕ
  unfolding xen_v4v_irp_stack
  hand_over asked event = do
    status ← xen_v4v_irp_stack asked event
    pure (
        if (status == status_success) || (status == status_pending)
        then status
        else status_unsuccessful)

  -- A packet is built, and where it is not, the status is the one that is given.
  unfoldable pub request_or : (unbuilt : ℕ) → Asked → Option ℕ → KernelCmd W ℕ
  unfolding xen_v4v_build_ioctl hand_over
  request_or unbuilt asked event = do
    built ← xen_v4v_build_ioctl asked event
    if built then hand_over asked event else pure unbuilt

  -- A request that is not tested for a packet: of none, the stack location is a fault.
  unfoldable pub request : Asked → Option ℕ → KernelCmd W ℕ
  unfolding xen_v4v_build_ioctl xen_v4v_irp_stack
  request asked event = do
    built ← xen_v4v_build_ioctl asked event
    if built then xen_v4v_irp_stack asked event else abort

  unfoldable pub await : Option ℕ → ℕ → KernelCmd W ℕ
  await event status = if status == status_pending then waiting (env.wait) event else pure status
