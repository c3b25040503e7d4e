-- ===== src/Workload/Status/Active.antt =====
-- charmhelpers/contrib/openstack/utils.py: when `_determine_os_workload_status` comes to `active`.
use charm_helpers.Prelude.{
  String, ◌≡◌, refl, ap, ◌∙◌, List, [], ◌∷◌, Bool, true, false, not, ◌&&◌, ◌||◌, Option, none, some,
  arith, ltb, if◌then◌else◌, Bool-cases, inl, inr, is_some,
}
use charm_helpers.Workload.{
  State, unit_is_ready, unknown, active, maintenance, waiting, blocked, other, Part, Status,
}
use charm_helpers.Workload.Checks.{
  state_of, check_services_running, check_services_running_iff, all_up,
}
use charm_helpers.Workload.Interfaces.{
  check_generic_interfaces, report, all_complete, check_generic_interfaces_iff,
}
use charm_helpers.Workload.Pause.{LocalUnit}
use charm_helpers.Workload.Status.{
  rank, known, workload_state_compare, CharmStatus, check_if_paused, is_problem, compared,
  check_charm_func, first_of, consult_charm, Charm, finish_status, determine_status,
}
use charm_helpers.Workload.Status.Settled.{state_if}

-- not `active`
abbrev pub not_active : Option State → Bool
not_active none = true
not_active (some active) = false
not_active (some unknown) = true
not_active (some maintenance) = true
not_active (some waiting) = true
not_active (some blocked) = true
not_active (some (other s)) = true

not_active_if :
    (b : Bool) (x y : State)
    → not_active (some x) ≡ true
    → not_active (some y) ≡ true
    → not_active (some (if b then x else y)) ≡ true
not_active_if true x y hx hy = hx
not_active_if false x y hx hy = hy

not_active-known : (o : Option State) → not_active o ≡ true → not_active (some (known o)) ≡ true
not_active-known none h = refl
not_active-known (some active) h = h
not_active-known (some unknown) h = refl
not_active-known (some maintenance) h = refl
not_active-known (some waiting) h = refl
not_active-known (some blocked) h = refl
not_active-known (some (other s)) h = refl

problem_not_active : (s : State) → is_problem (some s) ≡ true → not_active (some s) ≡ true
problem_not_active active h = cc
problem_not_active unknown h = refl
problem_not_active maintenance h = refl
problem_not_active waiting h = refl
problem_not_active blocked h = refl
problem_not_active (other s) h = refl

-- the problem of the charm, if it has a check at all
abbrev pub has_problem : Option CharmStatus → Bool
has_problem none = false
has_problem (some c) = is_problem c.state

not_active-compared :
    (o p : Option State)
    → not_active o ≡ true
    → not_active (if is_problem p then compared o p else o) ≡ true
unfolding workload_state_compare
not_active-compared o none h = h
not_active-compared o (some s) h = elim (Bool-cases (is_problem (some s))) [
  | inl e ↦ rw (e) (
      not_active_if (ltb (rank (known (some s))) (rank (known o))) (known o) (known (some s))
        (not_active-known o h) (not_active-known (some s) (problem_not_active s e)))
  | inr e ↦ rw (e) h
]

is_some-compared :
    (o p : Option State)
    → is_some (if is_problem p then compared o p else o) ≡ (is_some o || is_problem p)
is_some-compared none none = refl
is_some-compared (some s) none = refl
is_some-compared o (some s) = either (is_problem (some s)) (workload_state_compare o s) o
  where
    either :
        (b : Bool) (t : State) (o : Option State)
        → is_some (if b then some t else o) ≡ (is_some o || b)
    either true t none = refl
    either true t (some s) = refl
    either false t none = refl
    either false t (some s) = refl

check_charm_func-not_active :
    (st : Status) (c : CharmStatus)
    → not_active st.0 ≡ true
    → (not_active (check_charm_func st c).0 ≡ true)
      × (is_some (check_charm_func st c).0 ≡ (is_some st.0 || is_problem c.state))
unfolding check_charm_func
check_charm_func-not_active st c h = (
  ap not_active (state_if (is_problem c.state) _ _) ∙ not_active-compared st.0 c.state h,
  ap is_some (state_if (is_problem c.state) _ _) ∙ is_some-compared st.0 c.state,
)

or_false : (b : Bool) → b ≡ (b || false)
or_false true = refl
or_false false = refl

consult_charm-not_active :
    (f : Option CharmStatus) (st : Status)
    → not_active st.0 ≡ true
    → (not_active (consult_charm f st).0 ≡ true)
      × (is_some (consult_charm f st).0 ≡ (is_some st.0 || has_problem f))
unfolding consult_charm
consult_charm-not_active none st h = (h, or_false (is_some st.0))
consult_charm-not_active (some c) (none, ps) h = check_charm_func-not_active (none, ps) c h
consult_charm-not_active (some c) (some active, ps) h = cc
consult_charm-not_active (some c) (some unknown, ps) h =
    check_charm_func-not_active (some unknown, ps) c h
consult_charm-not_active (some c) (some maintenance, ps) h = (h, refl)
consult_charm-not_active (some c) (some waiting, ps) h =
    check_charm_func-not_active (some waiting, ps) c h
consult_charm-not_active (some c) (some blocked, ps) h =
    check_charm_func-not_active (some blocked, ps) c h
consult_charm-not_active (some c) (some (other s), ps) h =
    check_charm_func-not_active (some (other s), ps) c h

neither :
    (g p : Bool) (x y z : Status) → (g || p) ≡ false → (if g then x else if p then y else z) ≡ z
neither true p x y z h = cc
neither false true x y z h = cc
neither false false x y z h = refl

not_active-state_of : (ms : List Part) → not_active (state_of ms) ≡ true
not_active-state_of [] = refl
not_active-state_of (m ∷ ms) = refl

not_active-report : (ms is : List String) → not_active (report ms is).0 ≡ true
unfolding report
not_active-report [] [] = refl
not_active-report [] (i ∷ is) = refl
not_active-report (m ∷ ms) [] = refl
not_active-report (m ∷ ms) (i ∷ is) = refl

not_active-last :
    (third running : Status) (parts : List Part)
    → not_active third.0 ≡ true
    → not_active running.0 ≡ true
    → not_active (first_of (first_of third running) (some active, parts)).0
      ≡ (is_some third.0 || is_some running.0)
not_active-last (none, p) (none, q) parts ht hr = refl
not_active-last (none, p) (some s, q) parts ht hr = hr
not_active-last (some s, p) running parts ht hr = ht

-- A unit that is neither paused nor under a series upgrade is active exactly if every required
-- interface has a complete context, the charm's own check reports no problem, and all its services
-- run with all their ports listening.
pub determine_status-active :
    (c : Charm) (u : LocalUnit)
    → (u.unit_upgrading || u.unit_paused) ≡ false
    → not_active (determine_status c u).0
      ≡ not (
          all_complete c.configs c.required_interfaces
          && (not (has_problem c.charm_func) && all_up u.sys c.services c.ports false))
unfolding determine_status check_if_paused finish_status check_services_running
    check_generic_interfaces
determine_status-active c u h =
    ap (λ st. not_active (finish_status c u.sys st).0)
      (neither u.unit_upgrading u.unit_paused _ _ _ h)
    ∙ not_active-last third running (unit_is_ready ∷ []) settled.0 (not_active-state_of running.1)
    ∙ ground (
      arith,
      settled.1,
      check_services_running_iff u.sys c.services c.ports false,
      check_generic_interfaces_iff c.hook c.configs c.required_interfaces,
    )
  where
    interfaces : Status
    interfaces = check_generic_interfaces c.hook c.configs c.required_interfaces

    third : Status
    third = consult_charm c.charm_func interfaces

    running : Status
    running = check_services_running u.sys c.services c.ports false

    settled :
        (not_active third.0 ≡ true)
        × (is_some third.0 ≡ (is_some interfaces.0 || has_problem c.charm_func))
    settled = consult_charm-not_active c.charm_func interfaces (not_active-report _ _)
