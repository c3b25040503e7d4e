-- ===== src/Workload/Status.antt =====
-- charmhelpers/contrib/openstack/utils.py: `_determine_os_workload_status` and its parts.
use charm_helpers.Prelude.{
  ℕ, String, ◌≡◌, refl, sym, ap, ◌∙◌, List, [], ◌∷◌, ◌++◌, Bool, true, false, not, ◌&&◌, ◌||◌,
  Option, none, some, arith, leb, ltb, if◌then◌else◌, Dict, Bool-cases, inl, inr, is_some,
  Option-cases,
}
use charm_helpers.Workload.{
  State, unknown, active, maintenance, waiting, blocked, other, Part, unit_is_ready, paused,
  ready_for_upgrade, policyd_prefix, charm_message, more_charm_message, queued_for_restart,
  hooks_skipped, Status, System, Item,
}
use charm_helpers.Workload.Checks.{
  check_services_running, check_actually_paused, check_services_running_iff,
  check_actually_paused_iff, all_up, any_up,
}
use charm_helpers.Workload.Interfaces.{
  HookName, Configs, check_generic_interfaces, all_complete, check_generic_interfaces_iff,
}
use charm_helpers.Workload.Pause.{LocalUnit}
pub mod Settled
pub mod Active

-- the place in the hierarchy, from one for `active`
abbrev pub rank : State → ℕ
rank unknown = 0
rank active = 1
rank maintenance = 2
rank waiting = 3
rank blocked = 4
rank (other s) = 0

abbrev pub known : Option State → State
known none = unknown
known (some (other s)) = unknown
known (some unknown) = unknown
known (some active) = active
known (some maintenance) = maintenance
known (some waiting) = waiting
known (some blocked) = blocked

-- `workload_state_compare`
pub workload_state_compare : Option State → State → State
workload_state_compare current workload =
    if ltb (rank (known (some workload))) (rank (known current))
    then known current
    else known (some workload)

-- What the charm's own check says: its state and its message.
pub record CharmStatus : Type 0 where
  pub state : Option State
  pub message : String

-- The status of a unit that is paused, or being upgraded, with the state to report when it is.
pub paused_status : Status → State → Part → Status
paused_status (none, parts) state part = (some state, part ∷ [])
paused_status (some problem, parts) state part = (some problem, parts)

-- `_ows_check_if_paused`
pub check_if_paused : LocalUnit → Option (List Item) → Option (List ℕ) → Status
unfolding paused_status
check_if_paused u services ports =
    let upgrading =
      paused_status (check_actually_paused u.sys services ports) blocked ready_for_upgrade in
    let pausing = paused_status (check_actually_paused u.sys services ports) maintenance paused in
    if u.unit_upgrading then upgrading else if u.unit_paused then pausing else (none, [])

-- a state that the charm's check reports as a problem
abbrev pub is_problem : Option State → Bool
is_problem none = false
is_problem (some active) = false
is_problem (some unknown) = false
is_problem (some maintenance) = true
is_problem (some waiting) = true
is_problem (some blocked) = true
is_problem (some (other s)) = true

abbrev pub add_charm_message : List Part → String → List Part
add_charm_message [] m = charm_message m ∷ []
add_charm_message (p ∷ ps) m = (p ∷ ps) ++ more_charm_message m ∷ []

-- the state to compare with; the case of `None` is not reached where there is a problem
abbrev pub compared : Option State → Option State → Option State
compared current none = current
compared current (some s) = some (workload_state_compare current s)

-- `_ows_check_charm_func`
pub check_charm_func : Status → CharmStatus → Status
check_charm_func status c =
    if is_problem c.state
    then (compared status.0 c.state, add_charm_message status.1 c.message)
    else status

-- `if state is None: state, message = …`
abbrev pub first_of : Status → Status → Status
first_of (none, parts) next = next
first_of (some s, parts) next = (some s, parts)

-- `if state != 'maintenance' and charm_func`
pub consult_charm : Option CharmStatus → Status → Status
unfolding check_charm_func
consult_charm none status = status
consult_charm (some c) (some maintenance, parts) = (some maintenance, parts)
consult_charm (some c) (some active, parts) = check_charm_func (some active, parts) c
consult_charm (some c) (some unknown, parts) = check_charm_func (some unknown, parts) c
consult_charm (some c) (some waiting, parts) = check_charm_func (some waiting, parts) c
consult_charm (some c) (some blocked, parts) = check_charm_func (some blocked, parts) c
consult_charm (some c) (some (other s), parts) = check_charm_func (some (other s), parts) c
consult_charm (some c) (none, parts) = check_charm_func (none, parts) c

-- What is added to the message: the prefix of a policy override, the services queued for a restart
-- and the hooks that were skipped.
pub record Notes : Type 0 where
  pub has_policyd : Bool
  pub deferred_restarts : List String
  pub deferred_hooks : List String

abbrev pub note : (List String → Part) → List String → List Part
note part [] = []
note part (x ∷ xs) = part (x ∷ xs) ∷ []

abbrev pub annotate : Notes → List Part → List Part
annotate n parts =
    (if n.has_policyd then policyd_prefix ∷ parts else parts)
    ++ (note queued_for_restart n.deferred_restarts ++ note hooks_skipped n.deferred_hooks)

-- What a call is given besides the unit.
pub record Charm : Type 0 where
  pub hook : HookName
  pub configs : Configs
  pub required_interfaces : Dict (List String)
  pub charm_func : Option CharmStatus
  pub services : Option (List Item)
  pub ports : Option (List ℕ)
  pub notes : Notes

-- the rest of `_determine_os_workload_status`, once it is known whether the unit is paused
pub finish_status : Charm → System → Status → Status
unfolding consult_charm
finish_status c sys first =
    let second = first_of first (check_generic_interfaces c.hook c.configs c.required_interfaces) in
    let third = consult_charm c.charm_func second in
    let fourth = first_of third (check_services_running sys c.services c.ports false) in
    let last = first_of fourth (some active, unit_is_ready ∷ []) in
    (last.0, annotate c.notes last.1)

-- `_determine_os_workload_status`
pub determine_status : Charm → LocalUnit → Status
unfolding check_if_paused finish_status
determine_status c u = finish_status c u.sys (check_if_paused u c.services c.ports)
