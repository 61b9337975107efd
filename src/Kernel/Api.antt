-- ===== src/Kernel/Api.antt =====
-- The functions of inc/v4vkapi.h that a driver calls.
use winservice.Base.{
  ℕ, ◌==◌, Bool, true, false, Option, none, some, pure, ◌>>=◌, ◌>>◌, if◌then◌else◌,
}
use winservice.Base.Words.{low32}
use winservice.V4v.Message.{V4vRingId}
use winservice.Channel.Env.{initialize, bind, connect, wait, disconnect}
use winservice.Channel.Api.{no_stream}
use winservice.Kernel.Env.{
  status_success, status_unsuccessful, nt_success, v4v_open, v4v_closed, v4v_connected,
  v4v_disconnected, v4v_error, Asked, control, write, read, KernelEnv, KernelCmd, updating, field,
  opening, closing, referencing, releasing, device_from, freeing,
}
use winservice.Kernel.Requests.{
  with_state, with_handle, with_event_handle, with_event, with_file, with_device,
  xen_v4v_build_ioctl, xen_v4v_irp_stack, xen_v4v_create_event, xen_v4v_create_kevent, close_some,
  request_or, request, await,
}

module _ {W : Type 0} (env : KernelEnv W) where
  open env use {
    get_device_object, create_file, create_event, close, create_synchronization_event,
    reference_object, dereference_object, device_of, build_request, call_driver, free_pool,
  }

  -- `XenV4VInitDev`, in its steps: the reference to the event, the request, and the end.
  unfoldable pub reference_event : ℕ → KernelCmd W ℕ
  reference_event event = do
    r ← referencing reference_object event
    updating (with_event r.1)
    updating (with_event_handle (some event))
    pure r.0

  -- A status of failure is one of no packet or of the driver's refusal.
  unfoldable pub request_init : (event ring_size : ℕ) → Option ℕ → KernelCmd W ℕ
  unfolding request_or reference_event
  request_init event ring_size none = pure status_unsuccessful
  request_init event ring_size (some kevent) = do
    status ←
        request_or env status_unsuccessful (control (initialize event (low32 ring_size)))
          (some kevent)
    if status == status_unsuccessful then pure status else reference_event event

  unfoldable pub end_init : (event : ℕ) (h : Option ℕ) (status : ℕ) → KernelCmd W ℕ
  unfolding close_some
  end_init event h status = do
    if nt_success status then updating (with_state v4v_open) else close_some env (some event)
    close_some env h
    pure status

  unfoldable pub init_with : (ring_size : ℕ) → Option ℕ → KernelCmd W ℕ
  unfolding xen_v4v_create_kevent request_init end_init
  init_with ring_size none = pure status_unsuccessful
  init_with ring_size (some event) = do
    r ← xen_v4v_create_kevent env
    status ← request_init event ring_size r.0
    end_init event r.1 status

  unfoldable pub xen_v4v_init_dev : (ring_size : ℕ) → KernelCmd W ℕ
  unfolding xen_v4v_create_event init_with
  xen_v4v_init_dev ring_size = do event ← xen_v4v_create_event env; init_with ring_size event

  unfoldable pub xen_v4v_connect_wait : KernelCmd W ℕ
  unfolding xen_v4v_create_kevent request
  xen_v4v_connect_wait = do
    r ← xen_v4v_create_kevent env
    status ← request env (control (wait no_stream)) r.0
    closing close r.1
    pure status

  unfoldable pub xen_v4v_connect : (to_domain port : ℕ) → KernelCmd W ℕ
  unfolding xen_v4v_create_kevent request await
  xen_v4v_connect to_domain port = do
    r ← xen_v4v_create_kevent env
    called ←
        request env (control (connect no_stream (record { port = port; domain = to_domain }))) r.0
    status ← await env r.0 called
    updating (with_state v4v_connected)
    closing close r.1
    pure status

  unfoldable pub xen_v4v_disconnect : KernelCmd W ℕ
  unfolding xen_v4v_create_kevent request await
  xen_v4v_disconnect = do
    r ← xen_v4v_create_kevent env
    called ← request env (control disconnect) r.0
    status ← await env r.0 called
    updating (with_state (if nt_success status then v4v_disconnected else v4v_error))
    closing close r.1
    pure status

  -- The second handle is closed where the first one is.
  unfoldable pub close_v4v_handle : Option ℕ → ℕ → KernelCmd W ℕ
  close_v4v_handle h status = if nt_success status then closing close h else pure status

  unfoldable pub xen_v4v_close : KernelCmd W ℕ
  unfolding close_v4v_handle
  xen_v4v_close = do
    ctx ← field (λ v. v.ctx)
    releasing dereference_object (ctx.recv_event)
    first ← closing close (ctx.recv_event_handle)
    status ← close_v4v_handle (ctx.v4v_handle) first
    updating (with_state (if nt_success status then v4v_closed else v4v_error))
    pure status

  -- A transfer: with no packet the status is of failure.
  unfoldable pub transfer : Asked → KernelCmd W ℕ
  unfolding xen_v4v_create_kevent xen_v4v_build_ioctl xen_v4v_irp_stack await
  transfer asked = do
    r ← xen_v4v_create_kevent env
    built ← xen_v4v_build_ioctl env asked r.0
    status ←
        (if built
          then (do called ← xen_v4v_irp_stack env asked r.0; await env r.0 called)
          else pure status_unsuccessful)
    closing close r.1
    pure status

  unfoldable pub xen_v4v_write : (buf len iosb : ℕ) → KernelCmd W ℕ
  unfolding transfer
  xen_v4v_write buf len iosb = transfer (write buf len iosb)

  unfoldable pub xen_v4v_read : (buf len iosb : ℕ) → KernelCmd W ℕ
  unfolding transfer
  xen_v4v_read buf len iosb = transfer (read buf len iosb)

  -- The ring that is asked for, of no domain of its own.
  abbrev pub bound_ring : (to_domain port : ℕ) → V4vRingId
  bound_ring to_domain port = record {
    addr = record { port = port; domain = 32756 };
    partner = to_domain;
  }

  unfoldable pub xen_v4v_bind : (to_domain port : ℕ) → KernelCmd W ℕ
  unfolding xen_v4v_create_kevent request_or close_some
  xen_v4v_bind to_domain port = do
    r ← xen_v4v_create_kevent env
    status ← request_or env status_success (control (bind (bound_ring to_domain port))) r.0
    close_some env r.1
    pure status

  -- The end of the functions that open: on failure what is open is closed.
  unfoldable pub settle : Option ℕ → ℕ → KernelCmd W ℕ
  unfolding close_some
  settle hd status =
      if status == status_success then (do updating (with_handle hd); pure status) else (do
        close_some env hd
        event ← field (λ v. v.ctx.recv_event_handle)
        close_some env event
        pure status)

  unfoldable pub reference_file : ℕ → KernelCmd W (Unit {0})
  reference_file hd = do
    r ← referencing reference_object hd
    updating (with_file r.1)
    file ← field (λ v. v.file_object)
    device ← device_from device_of file
    updating (with_device device)

  -- `rest` is what an opened device is asked for.
  unfoldable pub set_up : (ring_size : ℕ) (rest : KernelCmd W ℕ) → Option ℕ → ℕ → KernelCmd W ℕ
  unfolding reference_file xen_v4v_init_dev settle
  set_up ring_size rest none status = settle none status
  set_up ring_size rest (some hd) status = do
    reference_file hd
    ready ← xen_v4v_init_dev ring_size
    done ← (if ready == status_success then rest else pure ready)
    settle (some hd) done

  unfoldable pub open_with : (ring_size : ℕ) (rest : KernelCmd W ℕ) → KernelCmd W ℕ
  unfolding set_up
  open_with ring_size rest = do r ← opening create_file; set_up ring_size rest r.1 r.0

  unfoldable pub xen_v4v_open_dgram_port : (ring_size domain port : ℕ) → KernelCmd W ℕ
  unfolding open_with xen_v4v_bind
  xen_v4v_open_dgram_port ring_size domain port = open_with ring_size (xen_v4v_bind domain port)

  unfoldable pub bind_and_connect : (domain port : ℕ) → KernelCmd W ℕ
  unfolding xen_v4v_bind xen_v4v_connect
  bind_and_connect domain port = do
    status ← xen_v4v_bind domain port
    if status == status_success then xen_v4v_connect domain port else pure status

  unfoldable pub xen_v4v_open_device : (ring_size domain port : ℕ) → KernelCmd W ℕ
  unfolding open_with bind_and_connect
  xen_v4v_open_device ring_size domain port = open_with ring_size (bind_and_connect domain port)

  -- `handed_in` is whether the pointer is not NULL.
  unfoldable pub xen_v4v_destroy : (handed_in : Bool) → KernelCmd W (Unit {0})
  xen_v4v_destroy true = freeing free_pool
  xen_v4v_destroy false = pure tt
