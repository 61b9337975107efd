-- ===== src/Installer/Tests.antt =====
-- The theorems on the installer at a machine whose world is the service's entry, and runs of `main`.
use winservice.Base.{
  ℕ, ◌≡◌, refl, Bool, true, false, text_eq, Text, codes, Option, none, some, [], ◌∷◌, Ends, Run, ok,
  crash, arith,
}
use winservice.Installer.Env.{ServiceConfig, InstallEnv, Installing}
use winservice.Installer.Install.{service_install, main, config_of}
use winservice.Installer.Handles.{service_install-balanced}
use winservice.Installer.Registry.{Entry, new_entry, installed, Grants, service_install-installs}

abbrev Machine : Type 0
Machine = Option Entry

-- A change of the entry, where there is one.
abbrev change : (Entry → Entry) → Machine → Bool × Machine
change f none = (false, none)
change f (some e) = (true, some (f e))

abbrev found_in : Machine → Option ℕ
found_in none = none
found_in (some e) = some 8

abbrev create : ServiceConfig → Machine → Option ℕ × Machine
create c none = (some 9, some (new_entry c))
create c (some e) = (none, some e)

abbrev machine_env : InstallEnv Machine
machine_env = record {
  printf = λ _ w. w;
  last_error = λ _. 0;
  same_ignoring_case = text_eq;
  open_manager = λ w. (some 7, w);
  open_service = λ _ _ w. (found_in w, w);
  create_service = λ _ _ c w. create c w;
  start_service = λ _ w. w;
  change_config = λ _ c w. change (λ e. record e { config = c }) w;
  set_description = λ _ t w. change (λ e. record e { description = some t }) w;
  set_failure_actions = λ _ a w. change (λ e. record e { failure = some a }) w;
  set_failure_flag = λ _ b w. change (λ e. record e { failure_flag = b }) w;
  close_service_handle = λ _ w. w;
}

not_found-machine : (w : Machine) → found_in w ≡ none → w ≡ none
not_found-machine none e = refl
not_found-machine (some x) e = ground arith

found-machine : (h : ℕ) (w : Machine) → found_in w ≡ some h → (e : Entry) × (w ≡ some e)
found-machine h none e = ground arith
found-machine h (some x) e = (x, refl)

changed-machine :
    (f : Entry → Entry) (w : Machine) (e : Entry)
    → w ≡ some e
    → ((change f w).0 ≡ true) × ((change f w).1 ≡ some (f e))
changed-machine f w e same = rw same (refl, refl)

abbrev granting : Grants machine_env
granting = record {
  entry = λ w. w;
  printf-entry = λ _ _. refl;
  start_service-entry = λ _ _. refl;
  close-entry = λ _ _. refl;
  opened = λ _. (7, refl);
  open_manager-entry = λ _. refl;
  open_service-entry = λ _ _. refl;
  not_found = λ _ w e. not_found-machine w e;
  found = λ _ h w e. found-machine h w e;
  created = λ _ c w absent. rw absent (9, refl, refl);
  changed = λ _ path w e same.
      changed-machine (λ x. record x { config = config_of (some path) }) w e same;
  described = λ _ t w e same. changed-machine (λ x. record x { description = some t }) w e same;
  acting = λ _ a w e same. changed-machine (λ x. record x { failure = some a }) w e same;
  flagged = λ _ b w e same. (changed-machine (λ x. record x { failure_flag = b }) w e same).1;
}

abbrev service_path : Text
service_path = codes "C:/tools/vTopGuestAgent.exe"

-- No service yet.
abbrev bare : Installing Machine
bare = record { handles = λ _. 0; world = none }

service_install-balanced_example :
    Ends
      (λ code u. (code ≡ 0) × ((a : ℕ) → u.handles a ≡ 0))
      (service_install machine_env (some service_path) bare)
service_install-balanced_example = service_install-balanced machine_env (some service_path) bare

service_install-installs_example :
    Ends
      (λ code u. (code ≡ 0) × (u.world ≡ some (installed service_path)))
      (service_install machine_env (some service_path) bare)
service_install-installs_example = service_install-installs machine_env granting service_path bare

-- The program's result.
abbrev code_of : Run (Installing Machine) ℕ → Option ℕ
code_of (ok c s) = some c
code_of (crash s) = none

main-no_arguments : code_of (main machine_env [] bare) ≡ some 1
unfolding main
main-no_arguments = refl

main-other_flag : code_of (main machine_env (codes "/p" ∷ []) bare) ≡ some 1
unfolding main text_eq
main-other_flag = refl

main-install : code_of (main machine_env (codes "/s" ∷ service_path ∷ []) bare) ≡ some 0
unfolding main text_eq
main-install = refl
