-- ===== src/Host/Restart.antt =====
-- charmhelpers/core/host.py: `restart_on_change_helper` and its two halves. `hash` is `path_hash`;
-- what the services do is the list of calls, in order.
use charm_helpers.Prelude.{
  ℕ, suc, ◌+◌, String, ◌≡◌, refl, List, [], ◌∷◌, ◌++◌, Bool, true, false, not, ◌&&◌, Option, none,
  some, arith, str_eq, eq_iff, if◌then◌else◌, elem, elem-append, Dict, lookup, contains, Bool-cases,
  inl, inr, same_text,
}
pub mod Once

pub data Action : Type 0 where
  stop start restart : Action

pub data Call : Type 0 where
  pre_restarts_wait : Call
  restart_function : String → Call
  service : Action → String → Call
  post_svc_restart : String → Call

-- The optional arguments of the helpers.
pub record Options : Type 0 where
  pub stopstart : Bool
  pub restart_functions : List String
  pub can_restart_now : Option (String → List String → Bool)
  pub has_post_svc_restart : Bool
  pub has_pre_restarts_wait : Bool

-- `_pre_restart_on_change_helper`
pub checksums : (String → Option String) → Dict (List String) → Dict (Option String)
checksums hash [] = []
checksums hash ((path, services) ∷ m) = (path, hash path) ∷ checksums hash m

-- `path_hash(path) != checksums[path]`
pub has_changed : (String → Option String) → Dict (Option String) → String → Bool
has_changed hash old path = elim (lookup path old) [
  | none ↦ true
  | some h ↦ not (same_text (hash path) h)
]

-- the services of the paths that have changed, path by path
pub restarts : (String → Bool) → Dict (List String) → List String
restarts is_changed [] = []
restarts is_changed ((path, services) ∷ m) =
    let rest = restarts is_changed m in if is_changed path then services ++ rest else rest

pub count_of : String → List String → ℕ
count_of x [] = 0
count_of x (y ∷ ys) = let n = count_of x ys in if str_eq y x then suc n else n

-- `changed_files[svc].append(path)`, once for each time the service is listed
pub append_path : String → String → List String → List String → List String
append_path svc path [] files = files
append_path svc path (s ∷ services) files =
    let rest = append_path svc path services files in if str_eq s svc then path ∷ rest else rest

-- `changed_files[svc]`
pub changed_files : (String → Bool) → String → Dict (List String) → List String
unfolding append_path
changed_files is_changed svc [] = []
changed_files is_changed svc ((path, services) ∷ m) =
    let rest = changed_files is_changed svc m in
    if is_changed path then append_path svc path services rest else rest

-- `list(OrderedDict.fromkeys(…))`, onto the names found so far
pub unique_onto : List String → List String → List String
unique_onto [] seen = seen
unique_onto (x ∷ xs) seen = unique_onto xs (if elem x seen then seen else seen ++ x ∷ [])

abbrev pub permits : Options → String → List String → Bool
permits o svc files = elim o.can_restart_now [ none ↦ true | some f ↦ f svc files ]

-- the body of the loop over the services
pub restart_calls : Options → String → List String → List Call
restart_calls o svc files =
    if permits o svc files
    then (if elem svc o.restart_functions
        then restart_function svc ∷ []
        else if o.stopstart
        then service stop svc ∷ service start svc ∷ []
        else service restart svc ∷ [])
      ++ (if o.has_post_svc_restart then post_svc_restart svc ∷ [] else [])
    else []

pub all_calls : Options → (String → List String) → List String → List Call
unfolding restart_calls
all_calls o files [] = []
all_calls o files (svc ∷ svcs) = restart_calls o svc (files svc) ++ all_calls o files svcs

-- the part under `if services_list`
pub restart_all : Options → (String → List String) → List String → List Call
unfolding all_calls
restart_all o files [] = []
restart_all o files (s ∷ svcs) =
    (if o.has_pre_restarts_wait then pre_restarts_wait ∷ [] else []) ++ all_calls o files (s ∷ svcs)

-- `_post_restart_on_change_helper`
pub post_restart_calls :
    Options → (String → Option String) → Dict (Option String) → Dict (List String) → List Call
unfolding restart_all restarts changed_files unique_onto has_changed
post_restart_calls o hash old m =
    restart_all o (λ svc. changed_files (has_changed hash old) svc m)
      (unique_onto (restarts (has_changed hash old) m) [])

-- `restart_on_change_helper`: the hashes before and after the wrapped call
unfoldable pub restart_on_change :
    Options → (String → Option String) → (String → Option String) → Dict (List String) → List Call
unfolding post_restart_calls checksums
restart_on_change o hash_before hash_after m =
    post_restart_calls o hash_after (checksums hash_before m) m
