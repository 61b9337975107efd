-- ===== src/Kernel/Tests.antt =====
-- A small kernel, and a channel on it.
use winservice.Base.{
  ℕ, ◌+◌, ◌==◌, ◌≡◌, refl, Bool, true, false, Option, none, some, List, [], ◌∷◌, Outcome, Ends, Run,
  ok, crash, if◌then◌else◌,
}
use winservice.Kernel.Env.{
  status_unsuccessful, nt_success, v4v_unintialized, v4v_closed, XenV4v, KernelEnv, Kernel,
  V4vStatusType, Irp,
}
use winservice.Kernel.Requests.{
  second_event, xen_v4v_create_event, xen_v4v_create_kevent, xen_v4v_build_ioctl, xen_v4v_irp_stack,
  close_some, hand_over, request_or, request, await,
}
use winservice.Kernel.Api.{
  reference_event, request_init, end_init, init_with, xen_v4v_init_dev, xen_v4v_connect,
  close_v4v_handle, xen_v4v_close, transfer, xen_v4v_write, xen_v4v_bind, settle, reference_file,
  set_up, open_with, xen_v4v_open_dgram_port, bind_and_connect, xen_v4v_open_device,
}
use winservice.Kernel.Stands.{Refused}
use winservice.Kernel.Session.{
  writes, datagrams, connection, run_call, run_calls, run_open, use_and_close, session, Ended,
  session-Ended,
}
use winservice.Kernel.Bind.{Asks, bind-Asks}

-- Handles and objects are numbered. The driver takes what it is asked for; whether packets are built, and
-- whether a handle of that number or above can be referenced, is given.
abbrev World : Type 0
World = ℕ × Bool × Bool

abbrev small_kernel : KernelEnv World
small_kernel = record {
  get_device_object = λ w. ((0, w.0, w.0 + 1), (w.0 + 2, w.1, w.2));
  create_file = λ w. ((0, w.0), (w.0 + 1, w.1, w.2));
  create_event = λ w. ((0, w.0), (w.0 + 1, w.1, w.2));
  close = λ h w. (0, w);
  create_synchronization_event = λ w. (some (w.0, w.0 + 1), (w.0 + 2, w.1, w.2));
  reference_object = λ h w.
      ((if w.2 then 0 else if h == 20 then 0 else status_unsuccessful, w.0), (w.0 + 1, w.1, w.2));
  dereference_object = λ o w. w;
  device_of = λ f w. 7;
  build_request = λ d asked e w. (w.1, w);
  call_driver = λ d irp w. (0, w);
  wait = λ e w. (0, w);
  free_pool = λ v w. w;
}

small_closes : (h : ℕ) (w : World) → nt_success (small_kernel.close (some h) w).0 ≡ true
small_closes h w = refl

abbrev unset : XenV4v
unset = record {
  ctx = record { v4v_handle = none; recv_event = none; recv_event_handle = none; flags = 0 };
  file_object = none;
  dev_object = none;
  state = v4v_unintialized;
}

abbrev start : XenV4v → (builds references : Bool) → Kernel World
start v builds references = record {
  v4v = v;
  opened = λ _. 0;
  closed = λ _. 0;
  referenced = λ _. 0;
  dereferenced = λ _. 0;
  handed = [];
  refused = 0;
  world = (20, builds, references);
}

abbrev opened_before : XenV4v
opened_before = record unset { file_object = some 6; dev_object = some 7 }

abbrev length : List Irp → ℕ
length [] = 0
length (irp ∷ irps) = 1 + length irps

-- The answer, the state, how many packets the driver got, and how often the event's handle was closed.
abbrev seen : Run (Kernel World) ℕ → Option (ℕ × V4vStatusType × ℕ × ℕ)
seen (ok a u) = some (a, u.v4v.state, length u.handed, u.closed 22)
seen (crash u) = none

used_seen :
    seen (session small_kernel connection 4096 3 5 (writes 1 2 3 ∷ []) (start unset true true))
    ≡ some (0, v4v_closed, 4, 1)
unfolding xen_v4v_create_event xen_v4v_create_kevent xen_v4v_build_ioctl xen_v4v_irp_stack
    close_some hand_over request_or reference_event request_init end_init init_with xen_v4v_init_dev
    request await second_event xen_v4v_connect close_v4v_handle xen_v4v_close transfer xen_v4v_write
    xen_v4v_bind settle reference_file set_up open_with bind_and_connect xen_v4v_open_device
    run_call run_calls run_open use_and_close session
used_seen = refl

-- Where the event cannot be referenced, its handle is closed a second time.
twice_closed :
    seen (session small_kernel datagrams 4096 3 5 [] (start unset true false))
    ≡ some (status_unsuccessful, v4v_unintialized, 1, 2)
unfolding xen_v4v_create_event xen_v4v_create_kevent xen_v4v_build_ioctl xen_v4v_irp_stack
    close_some hand_over request_or reference_event request_init end_init init_with xen_v4v_init_dev
    second_event settle reference_file set_up open_with xen_v4v_open_dgram_port run_open
    use_and_close session
twice_closed = refl

session-Ended_example :
    Outcome
      (Ended small_kernel small_closes (start unset true true))
      (Refused (start unset true true))
      (session small_kernel connection 4096 3 5 (writes 1 2 3 ∷ []) (start unset true true))
session-Ended_example =
    session-Ended small_kernel small_closes (start unset true true) connection 4096 3 5
      (writes 1 2 3 ∷ []) refl refl

bind-Asks_example :
    Ends
      (Asks small_kernel 7 opened_before [] 0 3 5)
      (xen_v4v_bind small_kernel 3 5 (start opened_before false true))
bind-Asks_example = bind-Asks small_kernel 7 3 5 (start opened_before false true) refl
