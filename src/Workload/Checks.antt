-- ===== src/Workload/Checks.antt =====
-- charmhelpers/contrib/openstack/utils.py: what runs and what listens, in
-- `ows_check_services_running` and `check_actually_paused`.
use charm_helpers.Prelude.{
  ℕ, String, ◌≡◌, refl, List, [], ◌∷◌, ◌++◌, map, Bool, true, false, not, ◌&&◌, ◌||◌, Option, none,
  some, if◌then◌else◌, select, Dict, keys, is_some,
}
use charm_helpers.Workload.{
  State, blocked, Part, services_running, services_not_running, service_ports_open,
  service_ports_not_open, ports_open, ports_not_open, Status, System, Item, extract_services,
  all_of, any_of,
}

-- `_check_running_services`
pub check_running_services : System → Dict (List ℕ) → Dict Bool × List Bool
check_running_services sys services =
    let states = map sys.is_running (keys services) in
    (map (λ s. (s, sys.is_running s)) (keys services), states)

-- `_filter_tuples`
pub filter_tuples : Dict Bool → Bool → List String
filter_tuples [] state = []
filter_tuples ((s, b) ∷ d) state =
    let rest = filter_tuples d state in if (if state then b else not b) then s ∷ rest else rest

pub all_ports : Dict (List ℕ) → List ℕ
all_ports [] = []
all_ports ((s, ports) ∷ d) = ports ++ all_ports d

-- The services that have a port in the state asked for, with those ports: a list stands for the set
-- of its members.
pub map_ports : (ℕ → Bool) → Dict (List ℕ) → Dict (List ℕ)
map_ports matched [] = []
map_ports matched ((s, ports) ∷ d) =
    let rest = map_ports matched d in
    elim (select matched ports) [ [] ↦ rest | p ∷ ps ↦ (s, p ∷ ps) ∷ rest ]

-- `_check_listening_on_services_ports`
pub check_listening_on_services_ports :
    System → Dict (List ℕ) → Bool → Bool → Dict (List ℕ) × List Bool
unfolding all_ports map_ports
check_listening_on_services_ports sys services test ssl = (
  map_ports (λ p. if test then sys.has_listener ssl p else not (sys.has_listener ssl p)) services,
  map (sys.has_listener ssl) (all_ports services),
)

-- `_check_listening_on_ports_list`
pub check_listening_on_ports_list : System → List ℕ → Bool → List (ℕ × Bool) × List Bool
check_listening_on_ports_list sys ports ssl =
    (map (λ p. (p, sys.has_listener ssl p)) ports, map (sys.has_listener ssl) ports)

pub ports_with : List (ℕ × Bool) → Bool → List ℕ
ports_with [] state = []
ports_with ((p, b) ∷ d) state =
    let rest = ports_with d state in if (if state then b else not b) then p ∷ rest else rest

-- `state = 'blocked'` once a message is there
abbrev pub state_of : List Part → Option State
state_of [] = none
state_of (p ∷ ps) = some blocked

-- the part under `if services is not None` of `ows_check_services_running`: the SSL check comes in
-- the place of `test`, and so the ports are tested without it
pub not_running_parts : System → Option (List Item) → Bool → List Part
unfolding check_running_services check_listening_on_services_ports filter_tuples extract_services
not_running_parts sys none ssl = []
not_running_parts sys (some items) ssl =
    let services = extract_services (some items) in
    let running = check_running_services sys services in
    let listening = check_listening_on_services_ports sys services ssl false in
    (if all_of running.1 then [] else services_not_running (filter_tuples running.0 false) ∷ [])
    ++ (if all_of listening.1 then [] else service_ports_not_open listening.0 ∷ [])

pub not_listening_parts : System → Option (List ℕ) → Bool → List Part
unfolding check_listening_on_ports_list ports_with
not_listening_parts sys none ssl = []
not_listening_parts sys (some ports) ssl =
    let listening = check_listening_on_ports_list sys ports ssl in
    if all_of listening.1 then [] else ports_not_open (ports_with listening.0 false) ∷ []

-- `ows_check_services_running`
unfoldable pub check_services_running :
    System → Option (List Item) → Option (List ℕ) → Bool → Status
unfolding not_running_parts not_listening_parts
check_services_running sys services ports ssl =
    let messages = not_running_parts sys services ssl ++ not_listening_parts sys ports ssl in
    (state_of messages, messages)

-- the part under `if services is not None` of `check_actually_paused`
pub still_running_parts : System → Option (List Item) → List Part
unfolding check_running_services check_listening_on_services_ports filter_tuples extract_services
still_running_parts sys none = []
still_running_parts sys (some items) =
    let services = extract_services (some items) in
    let running = check_running_services sys services in
    let listening = check_listening_on_services_ports sys services true false in
    (if any_of running.1 then services_running (filter_tuples running.0 true) ∷ [] else [])
    ++ (if any_of listening.1 then service_ports_open listening.0 ∷ [] else [])

pub still_listening_parts : System → Option (List ℕ) → List Part
unfolding check_listening_on_ports_list ports_with
still_listening_parts sys none = []
still_listening_parts sys (some ports) =
    let listening = check_listening_on_ports_list sys ports false in
    if any_of listening.1 then ports_open (ports_with listening.0 true) ∷ [] else []

-- `check_actually_paused`
unfoldable pub check_actually_paused : System → Option (List Item) → Option (List ℕ) → Status
unfolding still_running_parts still_listening_parts
check_actually_paused sys services ports =
    let messages = still_running_parts sys services ++ still_listening_parts sys ports in
    (state_of messages, messages)

-- every service that the charm names runs, and every port of a service or of the list has a
-- listener, where the SSL check counts for the list alone
pub all_up : System → Option (List Item) → Option (List ℕ) → Bool → Bool
unfolding all_ports extract_services
all_up sys services ports ssl =
    all_of (map sys.is_running (keys (extract_services services)))
    && (all_of (map (sys.has_listener false) (all_ports (extract_services services)))
        && elim ports [ none ↦ true | some ps ↦ all_of (map (sys.has_listener ssl) ps) ])

pub any_up : System → Option (List Item) → Option (List ℕ) → Bool
unfolding all_ports extract_services
any_up sys services ports =
    any_of (map sys.is_running (keys (extract_services services)))
    || (any_of (map (sys.has_listener false) (all_ports (extract_services services)))
        || elim ports [ none ↦ false | some ps ↦ any_of (map (sys.has_listener false) ps) ])

-- Whether a state is reported, by the tests that decide the parts of the message.
reported_unless :
    (a b c : Bool) (x y z : Part)
    → is_some (
        state_of (
          ((if a then [] else x ∷ []) ++ (if b then [] else y ∷ [])) ++ (if c then [] else z ∷ [])))
      ≡ not (a && (b && c))
reported_unless true true true x y z = refl
reported_unless true true false x y z = refl
reported_unless true false c x y z = refl
reported_unless false b c x y z = refl

reported_when :
    (a b c : Bool) (x y z : Part)
    → is_some (
        state_of (
          ((if a then x ∷ [] else []) ++ (if b then y ∷ [] else [])) ++ (if c then z ∷ [] else [])))
      ≡ (a || (b || c))
reported_when false false false x y z = refl
reported_when false false true x y z = refl
reported_when false true c x y z = refl
reported_when true b c x y z = refl

-- The check of the services reports a problem exactly if one of the services does not run or one of
-- the ports has no listener, where the SSL check is made for the ports of the list and not for those
-- of the services.
pub check_services_running_iff :
    (sys : System) (services : Option (List Item)) (ports : Option (List ℕ)) (ssl : Bool)
    → is_some (check_services_running sys services ports ssl).0
      ≡ not (all_up sys services ports ssl)
unfolding check_services_running all_up all_ports extract_services
check_services_running_iff sys none none ssl = refl
check_services_running_iff sys none (some ps) ssl =
    reported_unless true true (all_of (map (sys.has_listener ssl) ps)) (ports_open [])
      (ports_open []) _
check_services_running_iff sys (some items) none ssl =
    reported_unless (all_of (map sys.is_running (keys (extract_services (some items)))))
      (all_of (map (sys.has_listener false) (all_ports (extract_services (some items))))) true _ _
      (ports_open [])
check_services_running_iff sys (some items) (some ps) ssl =
    reported_unless (all_of (map sys.is_running (keys (extract_services (some items)))))
      (all_of (map (sys.has_listener false) (all_ports (extract_services (some items)))))
      (all_of (map (sys.has_listener ssl) ps)) _ _ _

-- A pause counts as done exactly if no service that the charm names runs and none of the ports has a
-- listener.
pub check_actually_paused_iff :
    (sys : System) (services : Option (List Item)) (ports : Option (List ℕ))
    → is_some (check_actually_paused sys services ports).0 ≡ any_up sys services ports
unfolding check_actually_paused any_up all_ports extract_services
check_actually_paused_iff sys none none = refl
check_actually_paused_iff sys none (some ps) =
    reported_when false false (any_of (map (sys.has_listener false) ps)) (ports_open [])
      (ports_open []) _
check_actually_paused_iff sys (some items) none =
    reported_when (any_of (map sys.is_running (keys (extract_services (some items)))))
      (any_of (map (sys.has_listener false) (all_ports (extract_services (some items))))) false _ _
      (ports_open [])
check_actually_paused_iff sys (some items) (some ps) =
    reported_when (any_of (map sys.is_running (keys (extract_services (some items)))))
      (any_of (map (sys.has_listener false) (all_ports (extract_services (some items)))))
      (any_of (map (sys.has_listener false) ps)) _ _ _
