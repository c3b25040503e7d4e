-- ===== src/Workload/Tests.antt =====
-- charmhelpers/contrib/openstack/utils.py: a unit with one service, and the theorems there.
use charm_helpers.Prelude.{
  ◌≡◌, refl, String, List, [], ◌∷◌, true, false, not, ◌&&◌, Option, none, some, if◌then◌else◌,
}
use charm_helpers.Workload.{maintenance, blocked, System, Item, entry, extract_services}
use charm_helpers.Workload.Checks.{all_up, any_up}
use charm_helpers.Workload.Interfaces.{all_complete}
use charm_helpers.Workload.Status.{Charm, determine_status}
use charm_helpers.Workload.Status.Settled.{determine_status-paused}
use charm_helpers.Workload.Status.Active.{not_active, has_problem, determine_status-active}
use charm_helpers.Workload.Pause.{
  pause, resume, start, stop, LocalUnit, Control, pause_unit, AutoRestarts,
}

abbrev up : System
up = record { is_running = λ s. true; has_listener = λ ssl p. true }

abbrev down : System
down = record { is_running = λ s. false; has_listener = λ ssl p. false }

abbrev items : List Item
items = entry (some "keystone") (some (5000 ∷ [])) ∷ []

-- the charm, with its one interface complete
abbrev charm : Charm
charm = record {
  hook = record { is_departure = false; mentions = λ i. false };
  configs = record { complete_contexts = "shared-db" ∷ []; incomplete_context_data = λ is. [] };
  required_interfaces = ("database", "shared-db" ∷ "pgsql-db" ∷ []) ∷ [];
  charm_func = none;
  services = some items;
  ports = none;
  notes = record { has_policyd = false; deferred_restarts = []; deferred_hooks = [] };
}

abbrev at_work : LocalUnit
at_work = record { unit_paused = false; unit_upgrading = false; sys = up; deferred_hooks = [] }

abbrev at_rest : LocalUnit
at_rest = record { unit_paused = true; unit_upgrading = false; sys = down; deferred_hooks = [] }

-- Each action is carried out at once and cleanly.
abbrev control : Control
control resume s sys = (up, true)
control pause s sys = (down, true)
control start s sys = (up, true)
control stop s sys = (down, true)

abbrev no_complaint : LocalUnit → Option String
no_complaint u = none

pause-at_work : pause_unit control no_complaint (some items) none at_work ≡ (at_rest, none)
unfolding pause_unit extract_services
pause-at_work = refl

determine_status-paused_example : (determine_status charm at_rest).0 ≡ (
    if false
    then some blocked
    else if any_up down (some items) none
    then some blocked
    else some maintenance)
determine_status-paused_example = determine_status-paused charm at_rest refl

determine_status-active_example :
    not_active (determine_status charm at_work).0
    ≡ not (
        all_complete charm.configs charm.required_interfaces
        && (not (has_problem none) && all_up up (some items) none false))
determine_status-active_example = determine_status-active charm at_work refl

abbrev permitted : AutoRestarts
permitted = record { permitted = true; has_changed = false }
