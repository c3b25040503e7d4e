-- ===== src/Deferred/Policy.antt =====
-- charmhelpers/contrib/openstack/policy_rcd.py and files/policy_rc_d_script.py: the policies that
-- block actions on services, as the charm writes them and as the script reads them. The directory
-- of policies is a dictionary from applications to the contents of their files.
use Prim.Native.String.{len, slice, ◌++◌ as str_append}
use text.Mathlib.Text.{find?}
use charm_helpers.Prelude.{
  ℕ, zero, suc, ◌+◌, String, ◌≡◌, refl, sym, ap, ◌∙◌, List, [], ◌∷◌, ◌++◌, map, Bool, true, false,
  not, ◌&&◌, ◌||◌, Option, none, some, arith, eq_iff, str_eq, if◌then◌else◌, elem, any, select,
  sorted_set, Dict, lookup, insert, erase, or_else, is_some, ◌>>=◌, remove_first,
}
pub mod Answers
pub mod Blocking

pub record Policy : Type 0 where
  pub requestor_name : String
  pub requestor_type : String
  pub blocked_actions : Dict (List String)

-- The files of the directory: `none` is a file that holds the empty dictionary.
abbrev pub Directory : Type 0
Directory = Dict (Option Policy)

-- `read_default_policy_file`: the empty dictionary where there is no file
pub read_default_policy_file : String → Directory → Option Policy
read_default_policy_file app dir = elim (lookup app dir) [ none ↦ none | some p ↦ p ]

-- `get_default_policy`
pub get_default_policy : String → Policy
get_default_policy app = record {
  requestor_name = app;
  requestor_type = "charm";
  blocked_actions = [];
}

abbrev pub with_blocked : Dict (List String) → Policy → Policy
with_blocked d p = record {
  requestor_name = p.requestor_name;
  requestor_type = p.requestor_type;
  blocked_actions = d;
}

-- the changes of `add_policy_block` to the policy
pub block : String → List String → Policy → Policy
block service actions p =
    let old = or_else (lookup service p.blocked_actions) [] in
    with_blocked (insert service (sorted_set (old ++ actions)) p.blocked_actions) p

-- `add_policy_block`, for the charm of the application `app`
unfoldable pub add_policy_block : String → String → List String → Directory → Directory
unfolding read_default_policy_file get_default_policy block
add_policy_block app service actions dir =
    let policy : Policy = or_else (read_default_policy_file app dir) (get_default_policy app) in
    insert app (some (block service actions policy)) dir

pub remove_actions : List String → List String → List String
remove_actions [] blocked = blocked
remove_actions (a ∷ unblocked) blocked = remove_actions unblocked (remove_first a blocked)

-- the loop of `remove_policy_block`: a service that is not there is passed over
pub unblock : String → List String → Policy → Policy
unfolding remove_actions
unblock service unblocked p = elim (lookup service p.blocked_actions) [
  | none ↦ p
  | some l ↦ with_blocked (insert service (remove_actions unblocked l) p.blocked_actions) p
]

-- `remove_policy_block`, which writes the file even if there was none
pub remove_policy_block : String → String → List String → Directory → Directory
unfolding read_default_policy_file unblock
remove_policy_block app service unblocked dir = elim (read_default_policy_file app dir) [
  | none ↦ insert app none dir
  | some p ↦ insert app (some (unblock service unblocked p)) dir
]

-- `remove_policy_file`
pub remove_policy_file : String → Directory → Directory
remove_policy_file app dir = erase app dir

-- `text.replace(part, '')`, with as many steps as the text has bytes
pub delete_part : ℕ → String → String → String
delete_part zero part text = text
delete_part (suc fuel) part text = elim (find? text part) [
  | none ↦ text
  | some i ↦
      str_append (slice text 0 i) (delete_part fuel part (slice text (i + len part) (len text)))
]

-- `service.replace('.service', '')`
pub bare_name : String → String
unfolding delete_part
bare_name service = delete_part (len service) ".service" service

-- `SystemPolicy`
pub record SystemPolicy : Type 0 where
  pub policy_requestor_name : String
  pub policy_requestor_type : String
  pub service : String
  pub blocked_actions : List String

pub system_policies : Policy → Dict (List String) → List SystemPolicy
unfolding bare_name
system_policies p [] = []
system_policies p ((service, actions) ∷ d) =
    record {
      policy_requestor_name = p.requestor_name;
      policy_requestor_type = p.requestor_type;
      service = bare_name service;
      blocked_actions = actions;
    }
    ∷ system_policies p d

-- `read_policy_file`, of a file that is there: the empty dictionary is a `KeyError`
pub read_policy_file : Option Policy → Option (List SystemPolicy)
unfolding system_policies
read_policy_file none = none
read_policy_file (some p) = some (system_policies p p.blocked_actions)

-- `get_policies`
pub get_policies : Directory → Option (List SystemPolicy)
unfolding read_policy_file
get_policies [] = some []
get_policies ((app, file) ∷ dir) =
    read_policy_file file >>= (λ ps. get_policies dir >>= (λ qs. some (ps ++ qs)))

abbrev pub is_blocking : String → String → SystemPolicy → Bool
is_blocking service action p = str_eq p.service service && elem action p.blocked_actions

-- `get_blocking_policies`
pub get_blocking_policies : String → String → Directory → Option (List SystemPolicy)
unfolding get_policies
get_blocking_policies service action dir =
    get_policies dir >>= (λ ps. some (select (is_blocking (bare_name service) action) ps))

-- What is written for a policy that blocked an action; the time is that of the request.
pub record Record : Type 0 where
  pub timestamp : ℕ
  pub reason : String
  pub service : String
  pub action : String
  pub requestor_name : String
  pub requestor_type : String

-- `record_blocked_action`: the records, one for each policy
pub record_blocked_action : ℕ → String → String → List SystemPolicy → List Record
record_blocked_action now service action [] = []
record_blocked_action now service action (p ∷ ps) =
    record {
      timestamp = now;
      reason = "Package update";
      service = service;
      action = action;
      requestor_name = p.policy_requestor_name;
      requestor_type = p.policy_requestor_type;
    }
    ∷ record_blocked_action now service action ps

-- `process_action_request`: whether the action is permitted, and the records of a refusal
pub process_action_request : ℕ → String → String → Directory → Option (Bool × List Record)
unfolding get_blocking_policies record_blocked_action
process_action_request now service action dir = get_blocking_policies service action dir >>= (λ ps.
    some (elim ps [
      | [] ↦ (true, [])
      | q ∷ qs ↦ (false, record_blocked_action now service action (q ∷ qs))
    ]))

-- `main`: the exit status
unfoldable pub main_status : ℕ → String → String → Directory → Option ℕ
unfolding process_action_request
main_status now service action dir =
    process_action_request now service action dir >>= (λ r. some (if r.0 then 0 else 101))
