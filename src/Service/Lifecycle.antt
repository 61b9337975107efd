-- ===== src/Service/Lifecycle.antt =====
-- The life of the service: `ServiceMain` of vTopGuestAgent/main.cpp up to its wait, the control
-- requests that Windows delivers while it waits, and its end when the exit event is signalled.
pub mod Invariant
use winservice.Base.{ℕ, ◌≡◌, Bool, true, false, Option, none, some, Text, Run, ok, List}
use winservice.Service.Env.{Status, Level, ServiceEnv}
use winservice.Service.State.{Agent}
use winservice.Service.Control.{service_main_start, service_main_end, service_control_handler}

-- Documented behaviour of an event: `SetEvent` signals it, and what the handler calls besides
-- leaves it as it is.
pub record EventLaws {W : Type 0} (env : ServiceEnv W) : Type 0 where
  pub signalled : W → Bool
  pub set_event-signalled : (h : ℕ) (w : W) → signalled (env.set_event (some h) w) ≡ true
  pub set_service_status-signalled :
      (h : Option ℕ) (t : Status) (w : W) → signalled (env.set_service_status h t w) ≡ signalled w
  pub write_log-signalled :
      (l : Level) (m : Text) (w : W) → signalled (env.write_log l m w) ≡ signalled w

-- Before `ServiceMain`, at its wait, behind its end, and behind a start that failed.
pub data Phase : Type 0 where
  fresh waiting ended failed : Phase

pub record Session (W : Type 0) : Type 0 where
  pub phase : Phase
  pub agent : Agent W

module _ {W : Type 0} (env : ServiceEnv W) (laws : EventLaws env) where
  -- The event is created unsignalled, so it is at the first wait. Any number of requests come while
  -- the service waits, also behind the first that stops it; the wait ends when the event is
  -- signalled.
  pub data Step : Session W → Session W → Type 0 where
    start :
        {s t : Agent W}
        → service_main_start env s ≡ ok true t
        → laws.signalled t.world ≡ false
        → Step (record { phase = fresh; agent = s }) (record { phase = waiting; agent = t })
    fail :
        {s t : Agent W}
        → service_main_start env s ≡ ok false t
        → Step (record { phase = fresh; agent = s }) (record { phase = failed; agent = t })
    control :
        {s t : Agent W} (request : ℕ)
        → service_control_handler env request s ≡ ok tt t
        → Step (record { phase = waiting; agent = s }) (record { phase = waiting; agent = t })
    finish :
        {s t : Agent W}
        → laws.signalled s.world ≡ true
        → service_main_end env s ≡ ok tt t
        → Step (record { phase = waiting; agent = s }) (record { phase = ended; agent = t })

  -- From a state before `ServiceMain`, by any number of steps.
  pub data Reach (s : Agent W) : Session W → Type 0 where
    here : Reach s (record { phase = fresh; agent = s })
    step : {u v : Session W} → Reach s u → Step u v → Reach s v
