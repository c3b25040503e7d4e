-- ===== src/Workload/Status/Settled.antt =====
-- charmhelpers/contrib/openstack/utils.py: which state `_determine_os_workload_status` comes to.
use charm_helpers.Prelude.{
  ◌≡◌, refl, ap, ◌∙◌, List, [], ◌∷◌, Bool, true, false, ◌||◌, Option, none, some, if◌then◌else◌,
  is_some,
}
use charm_helpers.Workload.{
  State, unknown, active, maintenance, waiting, blocked, other, Part, paused, ready_for_upgrade,
  Status, System,
}
use charm_helpers.Workload.Checks.{
  state_of, check_actually_paused, check_actually_paused_iff, any_up,
}
use charm_helpers.Workload.Pause.{LocalUnit}
use charm_helpers.Workload.Status.{
  workload_state_compare, CharmStatus, paused_status, check_if_paused, is_problem, compared,
  check_charm_func, first_of, consult_charm, Charm, finish_status, determine_status,
}

pub state_if : (b : Bool) (x y : Status) → (if b then x else y).0 ≡ (if b then x.0 else y.0)
state_if true x y = refl
state_if false x y = refl

-- Nothing is worse than `blocked`.
compared-blocked :
    (o : Option State)
    → (if is_problem o then compared (some blocked) o else some blocked) ≡ some blocked
unfolding workload_state_compare
compared-blocked none = refl
compared-blocked (some unknown) = refl
compared-blocked (some active) = refl
compared-blocked (some maintenance) = refl
compared-blocked (some waiting) = refl
compared-blocked (some blocked) = refl
compared-blocked (some (other s)) = refl

consult_charm-blocked :
    (f : Option CharmStatus) (parts : List Part)
    → (consult_charm f (some blocked, parts)).0 ≡ some blocked
unfolding consult_charm check_charm_func
consult_charm-blocked none parts = refl
consult_charm-blocked (some c) parts = state_if (is_problem c.state) _ _ ∙ compared-blocked c.state

consult_charm-maintenance :
    (f : Option CharmStatus) (parts : List Part)
    → (consult_charm f (some maintenance, parts)).0 ≡ some maintenance
unfolding consult_charm
consult_charm-maintenance none parts = refl
consult_charm-maintenance (some c) parts = refl

first_of-some : (st next : Status) (s : State) → st.0 ≡ some s → (first_of st next).0 ≡ some s
first_of-some (none, parts) next s h = cc
first_of-some (some t, parts) next s h = h

finish_status-blocked :
    (c : Charm) (sys : System) (parts : List Part)
    → (finish_status c sys (some blocked, parts)).0 ≡ some blocked
unfolding finish_status
finish_status-blocked c sys parts =
    first_of-some _ _ blocked (first_of-some _ _ blocked (consult_charm-blocked c.charm_func parts))

finish_status-maintenance :
    (c : Charm) (sys : System) (parts : List Part)
    → (finish_status c sys (some maintenance, parts)).0 ≡ some maintenance
unfolding finish_status
finish_status-maintenance c sys parts =
    first_of-some _ _ maintenance
      (first_of-some _ _ maintenance (consult_charm-maintenance c.charm_func parts))

-- what a paused unit reports, by what still runs
finish-paused :
    (c : Charm) (sys : System) (parts : List Part) (part : Part)
    → (finish_status c sys (paused_status (state_of parts, parts) maintenance part)).0
      ≡ (if is_some (state_of parts) then some blocked else some maintenance)
unfolding paused_status
finish-paused c sys [] part = finish_status-maintenance c sys (part ∷ [])
finish-paused c sys (p ∷ ps) part = finish_status-blocked c sys (p ∷ ps)

finish-upgrading :
    (c : Charm) (sys : System) (parts : List Part) (part : Part)
    → (finish_status c sys (paused_status (state_of parts, parts) blocked part)).0 ≡ some blocked
unfolding paused_status
finish-upgrading c sys [] part = finish_status-blocked c sys (part ∷ [])
finish-upgrading c sys (p ∷ ps) part = finish_status-blocked c sys (p ∷ ps)

-- A unit under a series upgrade is always blocked; a paused unit is in maintenance if nothing of it
-- runs or listens any more, and blocked otherwise, whatever its interfaces and the charm's own check
-- say.
pub determine_status-paused :
    (c : Charm) (u : LocalUnit)
    → (u.unit_upgrading || u.unit_paused) ≡ true
    → (determine_status c u).0 ≡ (
        if u.unit_upgrading
        then some blocked
        else if any_up u.sys c.services c.ports
        then some blocked
        else some maintenance)
unfolding determine_status check_if_paused check_actually_paused
determine_status-paused c u h = either u.unit_upgrading u.unit_paused h
  where
    parts : List Part
    parts = (check_actually_paused u.sys c.services c.ports).1

    either :
        (g p : Bool)
        → (g || p) ≡ true
        → (finish_status c u.sys (
            if g
            then paused_status (state_of parts, parts) blocked ready_for_upgrade
            else if p
            then paused_status (state_of parts, parts) maintenance paused
            else (none, []))).0
          ≡ (if g
              then some blocked
              else if any_up u.sys c.services c.ports
              then some blocked
              else some maintenance)
    either true p h = finish-upgrading c u.sys parts ready_for_upgrade
    either false true h =
        finish-paused c u.sys parts paused
        ∙ ap (λ b. if b then some blocked else some maintenance)
            (check_actually_paused_iff u.sys c.services c.ports)
    either false false h = cc
