-- ===== src/Deferred/Events.antt =====
-- charmhelpers/contrib/openstack/deferred_events.py: the events kept as files in one directory, which
-- is a dictionary from file names to events. A time is the number of seconds of `time.time()`.
use charm_helpers.Prelude.{
  ℕ, zero, suc, ◌+◌, String, ◌≡◌, ◌≢◌, refl, sym, ap, ◌∙◌, List, [], ◌∷◌, ◌++◌, map, Bool, true,
  false, not, ◌&&◌, ◌||◌, Option, none, some, arith, eq_iff, eq_refl, str_eq, if◌then◌else◌, elem,
  any, select, sorted_set, Dict, lookup, insert, erase, or_else, is_some, ltb, Bool-cases, inl, inr,
  same_text,
}
pub mod Recorded
pub mod Cleared

pub record ServiceEvent : Type 0 where
  pub timestamp : ℕ
  pub service : String
  pub reason : Option String
  pub action : String
  pub policy_requestor_name : String
  pub policy_requestor_type : String

-- `ServiceEvent.__init__`, where the application is `app`; an empty name counts as none
pub new_event :
    String → ℕ → String → Option String → String → Option String → Option String → ServiceEvent
new_event app timestamp service reason action requestor_name requestor_type = record {
  timestamp = timestamp;
  service = service;
  reason = reason;
  action = action;
  policy_requestor_name = or_else requestor_name app;
  policy_requestor_type = or_else requestor_type "charm";
}

-- `matching_request`
pub matching_request : ServiceEvent → ServiceEvent → Bool
matching_request e f =
    str_eq e.service f.service && (str_eq e.action f.action && same_text e.reason f.reason)

abbrev pub Files : Type 0
Files = Dict ServiceEvent

-- `deferred_events`: those of the application
pub deferred_events : String → Files → Files
deferred_events app files = select (λ f. str_eq (f.1).policy_requestor_name app) files

-- `duplicate_event_files`
pub duplicate_event_files : String → ServiceEvent → Files → List String
unfolding deferred_events matching_request
duplicate_event_files app event files =
    map (λ f. f.0) (select (λ f. matching_request event f.1) (deferred_events app files))

abbrev pub is_nonempty {ℓ} : {A : Type ℓ} → List A → Bool
is_nonempty [] = false
is_nonempty (x ∷ xs) = true

-- `save_event`: `file` is the name that `get_event_record_file` makes
pub save_event : String → String → ServiceEvent → Files → Files
unfolding duplicate_event_files
save_event app file event files =
    let saved : ServiceEvent = record {
      timestamp = event.timestamp;
      service = event.service;
      reason = event.reason;
      action = event.action;
      policy_requestor_name = app;
      policy_requestor_type = "charm";
    } in
    if is_nonempty (duplicate_event_files app event files) then files else insert file saved files

-- `clear_deferred_events`, which does not look at the action
pub clear_deferred_events : List String → String → Files → Files
clear_deferred_events svcs action files = select (λ f. not (elem (f.1).service svcs)) files

-- `clear_deferred_restarts` and `process_svc_restart`
pub clear_deferred_restarts : List String → Files → Files
unfolding clear_deferred_events
clear_deferred_restarts services files = clear_deferred_events services "restart" files

pub process_svc_restart : String → Files → Files
unfolding clear_deferred_restarts
process_svc_restart service files = clear_deferred_restarts (service ∷ []) files

pub get_deferred_events : String → Files → List ServiceEvent
unfolding deferred_events
get_deferred_events app files = map (λ f. f.1) (deferred_events app files)

pub get_deferred_restarts : String → Files → List ServiceEvent
unfolding get_deferred_events
get_deferred_restarts app files =
    select (λ e. str_eq e.action "restart") (get_deferred_events app files)

-- `is_restart_permitted`, of the option `enable-auto-restarts`
pub is_restart_permitted : Option Bool → Bool
is_restart_permitted none = true
is_restart_permitted (some b) = b

-- `check_and_record_restart_request`: `describe` writes the reason of the changed files
pub check_and_record_restart_request :
    (List String → String)
    → String
    → Option Bool
    → ℕ
    → String
    → String
    → List String
    → Files
    → Bool × Files
unfolding is_restart_permitted save_event new_event
check_and_record_restart_request describe app option now file service changed_files files =
    let reason = describe (sorted_set changed_files) in
    let event : ServiceEvent = new_event app now service (some reason) "restart" none none in
    let permitted = is_restart_permitted option in
    (permitted, if permitted then files else save_event app file event files)

-- `deferrable_svc_restart`: whether the service is restarted, and the files
pub deferrable_svc_restart :
    String → Option Bool → ℕ → String → String → Option String → Files → Bool × Files
unfolding is_restart_permitted save_event new_event
deferrable_svc_restart app option now file service reason files =
    let event : ServiceEvent = new_event app now service reason "restart" none none in
    if is_restart_permitted option then (true, files) else (false, save_event app file event files)

-- `start_time and start_time < deferred_restart_time`
abbrev pub still_required : Option ℕ → ℕ → Bool
still_required none requested = false
still_required (some started) requested = ltb started requested

-- the loop of `check_restart_timestamps`
pub check_each : (String → Option ℕ) → List ServiceEvent → Files → Files
unfolding clear_deferred_restarts
check_each start_time [] files = files
check_each start_time (e ∷ es) files = check_each start_time es (
    if still_required (start_time e.service) e.timestamp
    then files
    else clear_deferred_restarts (e.service ∷ []) files)

-- `check_restart_timestamps`
unfoldable pub check_restart_timestamps : String → (String → Option ℕ) → Files → Files
unfolding check_each get_deferred_restarts
check_restart_timestamps app start_time files =
    check_each start_time (get_deferred_restarts app files) files
