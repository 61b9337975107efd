-- ===== src/Service/Tests.antt =====
-- The theorems on the service at a machine that grants what is asked, and runs of its functions.
use winservice.Base.{
  ℕ, ◌+◌, ◌-◌, ◌==◌, ◌≡◌, refl, Bool, true, false, codes, Option, none, some, replicate,
  if◌then◌else◌, Ends, Run, ok, crash, inl, inr, arith,
}
use winservice.Service.Env.{Status, ServiceEnv}
use winservice.Service.State.{Agent}
use winservice.Service.Control.{
  service_main_start, service_main_end, service_control_handler, service_stop_pending,
  service_stopped,
}
use winservice.Service.Launch.{launch_app_in_session, run}
use winservice.Service.Launch.Handles.{Leaves, launch_app_in_session-Leaves, run-balanced}
use winservice.Service.Uninstall.{service_uninstall}
use winservice.Service.Uninstall.Handles.{service_uninstall-balanced}
use winservice.Service.Features.{WatchFeature, WatchFeatureSet, add_feature}
use winservice.Service.Features.Slots.{IsValid, Extends, add_feature-IsValid}
use winservice.Service.Lifecycle.{EventLaws, ended, start, control, finish, Reach, here, step}
use winservice.Service.Lifecycle.Invariant.{InPhase, Reach-InPhase}

-- Whether the exit event is signalled, the next handle, and how often the status is still pending.
record Machine : Type 0 where
  event : Bool
  next : ℕ
  polls : ℕ

abbrev status_of : ℕ → Status
status_of state = record {
  service_type = 0x30;
  current_state = state;
  controls_accepted = 5;
  win32_exit_code = 0;
  service_specific_exit_code = 0;
  check_point = 0;
  wait_hint = 0;
}

abbrev new_handle : Machine → Option ℕ × Machine
new_handle w = (some w.next, record w { next = w.next + 1 })

abbrev new_process : Machine → Option (ℕ × ℕ) × Machine
new_process w = (some (w.next, w.next + 1), record w { next = w.next + 2 })

-- A request to stop takes two polls.
abbrev machine_env : ServiceEnv Machine
machine_env = record {
  write_log = λ _ _ w. w;
  load_log = λ _ w. (0, w);
  unload_log = λ w. (0, w);
  last_error = λ _. 0;
  same_ignoring_case = λ _ _. true;
  start_dispatcher = λ w. (true, w);
  open_manager = new_handle;
  open_service = λ _ w. new_handle w;
  control_stop = λ _ w. (some (status_of service_stop_pending), record w { polls = 2 });
  query_status = λ _ w. (
    some (status_of (if w.polls == 0 then service_stopped else service_stop_pending)),
    record w { polls = w.polls - 1 },
  );
  sleep = λ _ w. w;
  delete_service = λ _ w. (true, w);
  close_service_handle = λ _ w. w;
  close_handle = λ _ w. w;
  create_event = new_handle;
  set_event = λ h w. elim h [ none ↦ w | some _ ↦ record w { event = true } ];
  register_handler = new_handle;
  set_service_status = λ _ _ w. w;
  wait = λ _ _ w. w;
  active_session = λ _. 1;
  query_user_token = λ _ w. new_handle w;
  open_process_token = new_handle;
  lookup_privilege = λ _. some 20;
  duplicate_token = λ _ w. new_handle w;
  set_token_session = λ _ _ w. (true, w);
  adjust_privileges = λ _ _ w. (true, w);
  create_environment = λ _ w. new_handle w;
  create_process = λ _ w. new_process w;
  create_process_as_user = λ _ _ _ _ w. new_process w;
}

abbrev agent : Agent Machine
agent = record {
  status = status_of 0;
  h_status = none;
  exit_event = none;
  handles = λ _. 0;
  environments = λ _. 0;
  world = record { event = false; next = 100; polls = 0 };
}

service_uninstall-balanced_example :
    Ends (λ _ u. (a : ℕ) → u.handles a ≡ 0) (service_uninstall machine_env 3 agent)
service_uninstall-balanced_example =
    service_uninstall-balanced machine_env 3 agent (λ _ _. inr (inr (inl refl)))

launch_app_in_session-Leaves_example :
    Ends
      (λ _ u. Leaves machine_env (codes "notepad") (λ _. 0) u)
      (launch_app_in_session machine_env (codes "notepad") agent)
launch_app_in_session-Leaves_example =
    launch_app_in_session-Leaves machine_env (codes "notepad") agent

agent_balanced : Ends (λ _ u. (a : ℕ) → u.handles a ≡ 0) (run machine_env agent)
agent_balanced = run-balanced machine_env agent

-- A start, a request that is not known, a stop and the end.
abbrev state_of : {A : Type 0} → Run (Agent Machine) A → Agent Machine
state_of (ok _ s) = s
state_of (crash s) = s

abbrev event_laws : EventLaws machine_env
event_laws = record {
  signalled = λ w. w.event;
  set_event-signalled = λ _ _. refl;
  set_service_status-signalled = λ _ _ _. refl;
  write_log-signalled = λ _ _ _. refl;
}

abbrev started : Agent Machine
started = state_of (service_main_start machine_env agent)

abbrev asked : Agent Machine
asked = state_of (service_control_handler machine_env 4 started)

abbrev told : Agent Machine
told = state_of (service_control_handler machine_env 1 asked)

abbrev over : Agent Machine
over = state_of (service_main_end machine_env told)

session : Reach machine_env event_laws agent (record { phase = ended; agent = over })
unfolding service_main_start service_control_handler service_main_end launch_app_in_session
session =
    step (step (step (step here (start refl refl)) (control 4 refl)) (control 1 refl))
      (finish refl refl)

Reach-InPhase_example : InPhase machine_env event_laws ended over
Reach-InPhase_example = Reach-InPhase machine_env event_laws session

abbrev slot : WatchFeature
slot = record { watch = some 1; feature_flag = none; name = none; handler = none; ctx = none }

abbrev nine : WatchFeatureSet
nine = record { features = replicate 10 slot; nr_features = 9 }

nine-IsValid : IsValid nine
nine-IsValid = record { size = refl; used = omega arith }

add_feature-IsValid_example :
    (out : WatchFeatureSet) × (v : Machine) × (add_feature machine_env
        (some 2)
        (some 3)
        (some 4)
        none
        nine
        agent.world
      ≡ some (out, v))
    × IsValid out
    × Extends nine out
add_feature-IsValid_example =
    add_feature-IsValid machine_env (some 2) (some 3) (some 4) none nine agent.world nine-IsValid
