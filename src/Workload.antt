-- ===== src/Workload.antt =====
-- charmhelpers/contrib/openstack/utils.py: the workload status of an OpenStack unit and the actions
-- that pause and resume it. A status is a state, absent for `None`, and the parts of its message.
use charm_helpers.Prelude.{
  ℕ, String, List, [], ◌∷◌, Bool, true, false, ◌&&◌, ◌||◌, Option, none, some, leb, Dict, insert,
}
pub mod Checks
mod Tests
pub mod Interfaces
pub mod Pause
pub mod Status

-- The workload states: those of `workload_state_compare`, and any other text.
pub data State : Type 0 where
  unknown active maintenance waiting blocked : State
  other : String → State

-- A part of a message, with what it lists.
pub data Part : Type 0 where
  unit_is_ready paused ready_for_upgrade policyd_prefix : Part
  services_running services_not_running : List String → Part
  service_ports_open service_ports_not_open : Dict (List ℕ) → Part
  ports_open ports_not_open : List ℕ → Part
  missing_relations incomplete_relations : List String → Part
  charm_message more_charm_message : String → Part
  queued_for_restart hooks_skipped : List String → Part

abbrev pub Status : Type 0
Status = Option State × List Part

-- The machine: `service_running`, and `port_has_listener` on 0.0.0.0 with the SSL check or without.
pub record System : Type 0 where
  pub is_running : String → Bool
  pub has_listener : Bool → ℕ → Bool

-- One of the services that a charm passes: a name, or a dictionary that may have its keys.
pub data Item : Type 0 where
  name : String → Item
  entry : Option String → Option (List ℕ) → Item

extract_onto : List Item → Dict (List ℕ) → Dict (List ℕ)
extract_onto [] d = d
extract_onto (name s ∷ items) d = extract_onto items (insert s [] d)
extract_onto (entry none ports ∷ items) d = extract_onto items d
extract_onto (entry (some s) none ∷ items) d = extract_onto items (insert s [] d)
extract_onto (entry (some s) (some ports) ∷ items) d = extract_onto items (insert s ports d)

-- `_extract_services_list_helper`, of a list or of the values of a dictionary
unfoldable pub extract_services : Option (List Item) → Dict (List ℕ)
unfolding extract_onto
extract_services none = []
extract_services (some items) = extract_onto items []

-- `all` and `any` of a list of truth values
abbrev pub all_of : List Bool → Bool
all_of [] = true
all_of (b ∷ bs) = b && all_of bs

abbrev pub any_of : List Bool → Bool
any_of [] = false
any_of (b ∷ bs) = b || any_of bs
