-- ===== src/Workload/Pause/Outcome.antt =====
-- charmhelpers/contrib/openstack/utils.py: when a pause, a resumption or a hook goes ahead.
use charm_helpers.Prelude.{
  String, ◌≡◌, refl, List, [], ◌∷◌, ◌++◌, Bool, true, false, not, ◌&&◌, ◌||◌, Option, none, some,
  arith, if◌then◌else◌, elem, keys, is_some,
}
use charm_helpers.Workload.{System, Item, extract_services}
use charm_helpers.Workload.Pause.{
  Action, pause, resume, Message, not_cleanly, LocalUnit, Control, CharmFunc, says, fails,
  set_paused, run_actions, charm_messages, manage_payload_services, assessed, Raised, raise_if,
  pause_unit, resume_unit, AutoRestarts, is_hook_allowed,
}

-- every service does the action cleanly, one after the other
pub all_clean : Control → Action → List String → System → Bool
all_clean control action [] sys = true
all_clean control action (s ∷ ss) sys =
    let step = control action s sys in step.1 && all_clean control action ss step.0

abbrev pub is_quiet : Option CharmFunc → Bool
is_quiet none = true
is_quiet (some (says none)) = true
is_quiet (some (says (some m))) = false
is_quiet (some (fails e)) = false

abbrev is_nil : List Message → Bool
is_nil [] = true
is_nil (m ∷ ms) = false

is_nil-append : (xs ys : List Message) → is_nil (xs ++ ys) ≡ (is_nil xs && is_nil ys)
is_nil-append [] ys = refl
is_nil-append (x ∷ xs) ys = refl

is_nil-run_actions :
    (control : Control) (action : Action) (ss : List String) (sys : System)
    → is_nil (run_actions control action ss sys).1 ≡ all_clean control action ss sys
unfolding run_actions all_clean
is_nil-run_actions control action [] sys = refl
is_nil-run_actions control action (s ∷ ss) sys =
    either (control action s sys).1 (is_nil-run_actions control action ss (control action s sys).0)
  where
    rest : List Message
    rest = (run_actions control action ss (control action s sys).0).1

    either :
        (b : Bool)
        → is_nil rest ≡ all_clean control action ss (control action s sys).0
        → is_nil (if b then rest else not_cleanly s action ∷ rest)
          ≡ (b && all_clean control action ss (control action s sys).0)
    either true h = h
    either false h = refl

is_nil-charm_messages : (f : Option CharmFunc) → is_nil (charm_messages f) ≡ is_quiet f
is_nil-charm_messages none = refl
is_nil-charm_messages (some (says none)) = refl
is_nil-charm_messages (some (says (some m))) = refl
is_nil-charm_messages (some (fails e)) = refl

is_nil-assessed : (o : Option String) → is_nil (assessed o) ≡ not (is_some o)
is_nil-assessed none = refl
is_nil-assessed (some m) = refl

is_some-raise_if : (ms : List Message) → is_some (raise_if ms) ≡ not (is_nil ms)
is_some-raise_if [] = refl
is_some-raise_if (m ∷ ms) = refl

-- the messages of the services, of the charm's function and of the assessment together
messages_lem :
    (control : Control) (action : Action) (ss : List String) (sys : System) (f : Option CharmFunc)
    (o : Option String)
    → is_some (raise_if (((run_actions control action ss sys).1 ++ charm_messages f) ++ assessed o))
      ≡ not (all_clean control action ss sys && (is_quiet f && not (is_some o)))
messages_lem control action ss sys f o =
    let ran : List Message = (run_actions control action ss sys).1 in
    ground (
      arith,
      is_some-raise_if ((ran ++ charm_messages f) ++ assessed o),
      is_nil-append (ran ++ charm_messages f) (assessed o),
      is_nil-append ran (charm_messages f),
      is_nil-run_actions control action ss sys,
      is_nil-charm_messages f,
      is_nil-assessed o,
    )

-- `pause_unit` marks the unit as paused whether or not it fails, and leaves the mark of an upgrade;
-- it fails exactly if no upgrade is under way and a service did not stop cleanly, the charm's
-- function spoke, or the assessment of the paused unit has a message.
pub pause_unit_lem :
    (control : Control) (assess : LocalUnit → Option String) (services : Option (List Item))
    (f : Option CharmFunc) (u : LocalUnit)
    → let after = pause_unit control assess services f u in
      (after.0.unit_paused ≡ true)
      × (after.0.unit_upgrading ≡ u.unit_upgrading)
      × (is_some after.1 ≡ (
          not u.unit_upgrading
          && not (
              all_clean control pause (keys (extract_services services)) u.sys
              && (is_quiet f && not (is_some (assess after.0))))))
unfolding pause_unit manage_payload_services set_paused
pause_unit_lem control assess services f u = (
  refl,
  refl,
  either u.unit_upgrading _ _
      (messages_lem control pause (keys (extract_services services)) u.sys f _),
)
  where
    either :
        (b : Bool) (r : Raised) (c : Bool)
        → is_some r ≡ c
        → is_some (if b then none else r) ≡ (not b && c)
    either true r c h = refl
    either false r c h = h

-- `resume_unit` takes the mark away whether or not it fails; it fails exactly if a service did not
-- start cleanly, the charm's function spoke, or the assessment of the resumed unit has a message.
pub resume_unit_lem :
    (control : Control) (assess : LocalUnit → Option String) (services : Option (List Item))
    (f : Option CharmFunc) (u : LocalUnit)
    → let after = resume_unit control assess services f u in
      (after.0.unit_paused ≡ false)
      × (is_some after.1
          ≡ not (
              all_clean control resume (keys (extract_services services)) u.sys
              && (is_quiet f && not (is_some (assess after.0)))))
unfolding resume_unit manage_payload_services set_paused
resume_unit_lem control assess services f u =
    (refl, messages_lem control resume (keys (extract_services services)) u.sys f _)

-- A hook is allowed whenever deferred restarts are looked at and restarts are permitted, on a paused
-- unit too: that the unit is paused counts only where they are not looked at.
pub is_hook_allowed_iff :
    (c : AutoRestarts) (hookname : String) (check : Bool) (u : LocalUnit)
    → (is_hook_allowed c hookname check u).0 ≡ (if check then c.permitted else not u.unit_paused)
unfolding is_hook_allowed
is_hook_allowed_iff c hookname false u = refl
is_hook_allowed_iff c hookname true u =
    either c.permitted (c.has_changed || elem hookname u.deferred_hooks) _ _ _
  where
    either :
        (p d : Bool) (x y z : LocalUnit)
        → let r : Bool × LocalUnit =
            if p then (true, x) else if d then (false, y) else (false, z) in
          r.0 ≡ p
    either true d x y z = refl
    either false true x y z = refl
    either false false x y z = refl
