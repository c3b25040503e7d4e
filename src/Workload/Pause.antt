-- ===== src/Workload/Pause.antt =====
-- charmhelpers/contrib/openstack/utils.py: the flags of the unit, `manage_payload_services`,
-- `pause_unit`, `resume_unit`, the series upgrade and `is_hook_allowed`.
use charm_helpers.Prelude.{
  ℕ, String, ◌≡◌, refl, sym, ap, ◌∙◌, List, [], ◌∷◌, ◌++◌, map, Bool, true, false, not, ◌&&◌, ◌||◌,
  Option, none, some, arith, eq_iff, str_eq, if◌then◌else◌, elem, any, sorted_set, Dict, keys,
  Bool-cases, inl, inr, is_some, remove_first,
}
use charm_helpers.Workload.{System, Item, extract_services}
pub mod Outcome

pub data Action : Type 0 where
  pause resume start stop : Action

-- A message of an action: a service that did not do it cleanly, or a text.
pub data Message : Type 0 where
  not_cleanly : String → Action → Message
  text : String → Message

-- The unit: the flags in its store, the machine, and the deferred hooks.
pub record LocalUnit : Type 0 where
  pub unit_paused : Bool
  pub unit_upgrading : Bool
  pub sys : System
  pub deferred_hooks : List String

-- How the host carries out an action on a service: the machine after it, and its result.
abbrev pub Control : Type 0
Control = Action → String → System → System × Bool

-- `charm_func`: a message or none, or an error with its text. An empty message is none, here and in
-- the assessment of the unit.
pub data CharmFunc : Type 0 where
  says : Option String → CharmFunc
  fails : String → CharmFunc

abbrev pub with_sys : System → LocalUnit → LocalUnit
with_sys sys u = record {
  unit_paused = u.unit_paused;
  unit_upgrading = u.unit_upgrading;
  sys = sys;
  deferred_hooks = u.deferred_hooks;
}

-- `set_unit_paused` and `clear_unit_paused`
pub set_paused : Bool → LocalUnit → LocalUnit
set_paused b u = record {
  unit_paused = b;
  unit_upgrading = u.unit_upgrading;
  sys = u.sys;
  deferred_hooks = u.deferred_hooks;
}

-- `set_unit_upgrading` and `clear_unit_upgrading`
pub set_upgrading : Bool → LocalUnit → LocalUnit
set_upgrading b u = record {
  unit_paused = u.unit_paused;
  unit_upgrading = b;
  sys = u.sys;
  deferred_hooks = u.deferred_hooks;
}

-- the loop over the services
pub run_actions : Control → Action → List String → System → System × List Message
run_actions control action [] sys = (sys, [])
run_actions control action (s ∷ ss) sys =
    let step = control action s sys in
    let rest = run_actions control action ss step.0 in
    (rest.0, if step.1 then rest.1 else not_cleanly s action ∷ rest.1)

abbrev pub charm_messages : Option CharmFunc → List Message
charm_messages none = []
charm_messages (some (says none)) = []
charm_messages (some (says (some m))) = text m ∷ []
charm_messages (some (fails e)) = text e ∷ []

-- the charm's function does not fail
abbrev pub succeeds : Option CharmFunc → Bool
succeeds none = true
succeeds (some (says m)) = true
succeeds (some (fails e)) = false

-- the loop has left `success` as it was: it has not written a message
abbrev pub no_failures : List Message → Bool
no_failures [] = true
no_failures (m ∷ ms) = false

-- `manage_payload_services`, with one of the four actions: the success and the messages
pub manage_payload_services :
    Control
    → Action
    → Option (List Item)
    → Option CharmFunc
    → LocalUnit
    → LocalUnit × (Bool × List Message)
unfolding run_actions extract_services
manage_payload_services control action services charm_func u =
    let ran = run_actions control action (keys (extract_services services)) u.sys in
    (
      with_sys ran.0 u,
      (no_failures ran.1 && succeeds charm_func, ran.1 ++ charm_messages charm_func),
    )

abbrev pub assessed : Option String → List Message
assessed none = []
assessed (some m) = text m ∷ []

-- What an action ends with: the messages of the exception that it raises, if it does.
abbrev pub Raised : Type 0
Raised = Option (List Message)

abbrev pub raise_if : List Message → Raised
raise_if [] = none
raise_if (m ∷ ms) = some (m ∷ ms)

-- `pause_unit`: `assess` is what `assess_status_func` says of the unit
unfoldable pub pause_unit :
    Control
    → (LocalUnit → Option String)
    → Option (List Item)
    → Option CharmFunc
    → LocalUnit
    → LocalUnit × Raised
unfolding manage_payload_services set_paused
pause_unit control assess services charm_func u =
    let managed = manage_payload_services control pause services charm_func u in
    let v : LocalUnit = set_paused true managed.0 in
    (v, if v.unit_upgrading then none else raise_if ((managed.1).1 ++ assessed (assess v)))

-- `resume_unit`
pub resume_unit :
    Control
    → (LocalUnit → Option String)
    → Option (List Item)
    → Option CharmFunc
    → LocalUnit
    → LocalUnit × Raised
unfolding manage_payload_services set_paused
resume_unit control assess services charm_func u =
    let managed = manage_payload_services control resume services charm_func u in
    let v : LocalUnit = set_paused false managed.0 in
    (v, raise_if ((managed.1).1 ++ assessed (assess v)))

-- `series_upgrade_prepare` and `series_upgrade_complete`, where both arguments are given
pub series_upgrade_prepare : (LocalUnit → LocalUnit × Raised) → LocalUnit → LocalUnit × Raised
unfolding set_upgrading
series_upgrade_prepare pause_unit_helper u =
    let v : LocalUnit = set_upgrading true u in
    let after = pause_unit_helper v in if v.unit_paused then (v, none) else after

pub series_upgrade_complete : (LocalUnit → LocalUnit × Raised) → LocalUnit → LocalUnit × Raised
unfolding set_upgrading set_paused
series_upgrade_complete resume_unit_helper u =
    resume_unit_helper (set_upgrading false (set_paused false u))

-- The configuration that `is_hook_allowed` reads: `is_restart_permitted`, and whether the option
-- `enable-auto-restarts` has changed.
pub record AutoRestarts : Type 0 where
  pub permitted : Bool
  pub has_changed : Bool

abbrev pub with_deferred : List String → LocalUnit → LocalUnit
with_deferred hooks u = record {
  unit_paused = u.unit_paused;
  unit_upgrading = u.unit_upgrading;
  sys = u.sys;
  deferred_hooks = hooks;
}

-- `is_hook_allowed`, without the reasons
pub is_hook_allowed : AutoRestarts → String → Bool → LocalUnit → Bool × LocalUnit
is_hook_allowed c hookname check_deferred_restarts u =
    if not check_deferred_restarts
    then (not u.unit_paused, u)
    else if c.permitted
    then (true, with_deferred (remove_first hookname u.deferred_hooks) u)
    else if c.has_changed || elem hookname u.deferred_hooks
    then (false, u)
    else (false, with_deferred (sorted_set (u.deferred_hooks ++ hookname ∷ [])) u)
