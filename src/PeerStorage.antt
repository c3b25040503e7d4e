-- ===== src/PeerStorage.antt =====
-- charmhelpers/contrib/peerstorage/__init__.py: `leader_get` with its migration of settings from the
-- peer relation.
use charm_helpers.Prelude.{
  String, List, [], ◌∷◌, ◌++◌, Bool, true, false, not, ◌&&◌, ◌||◌, Option, none, some, str_eq,
  if◌then◌else◌, elem, is_some, Dict, lookup, contains, insert, erase, keys, or_else, add_once,
}
mod Tests
pub mod Migration
pub mod Merged
pub mod Stored

-- A setting: a text, or the JSON of a list of names, which only the migration key has.
pub data Value : Type 0 where
  text : String → Value
  names : List String → Value

abbrev pub Settings : Type 0
Settings = Dict Value

abbrev pub migration_key : String
migration_key = "__leader_get_migrated_settings__"

-- a setting as a condition: an empty text counts as none
abbrev pub is_set : Option Value → Bool
is_set none = false
is_set (some (text s)) = not (str_eq s "")
is_set (some (names xs)) = true

-- What the unit sees: whether it leads, the leader's settings, and what it has set itself on the
-- peer relation.
pub record Peer : Type 0 where
  pub is_leader : Bool
  pub leader : Settings
  pub own : Settings

-- `set(json.loads(previously_migrated))`
abbrev pub names_of : Option Value → List String
names_of none = []
names_of (some (text s)) = []
names_of (some (names xs)) = xs

pub migrated : Peer → List String
migrated p = names_of (lookup migration_key p.leader)

-- `leader_set` of one setting
abbrev pub leader_set : String → Value → Peer → Peer
leader_set key v p = record { is_leader = p.is_leader; leader = insert key v p.leader; own = p.own }

-- `if not leader_settings`: the relation's value is set as the leader's
pub take_over : String → Peer → Peer
take_over attribute p = elim (lookup attribute p.own) [
  | none ↦ p
  | some v ↦
      if not (is_set (lookup attribute p.leader)) && is_set (some v)
      then leader_set attribute v p
      else p
]

-- the end of `leader_get`, where a setting was migrated
pub mark : String → List String → Peer → Peer
mark attribute done p = leader_set migration_key (names (add_once attribute done)) p

-- An attribute that names one setting. The empty one is as none for `leader_get`, which then answers
-- all settings, and `-` stands for all settings in the arguments of the tools of Juju.
abbrev pub names_setting : String → Bool
names_setting attribute = not (str_eq attribute "" || str_eq attribute "-")

-- `leader_get`, of an attribute that names one setting: the setting, and the settings after it
unfoldable pub leader_get : String → Peer → Option Value × Peer
unfolding migrated take_over mark
leader_get attribute p =
    if not p.is_leader || elem attribute (migrated p)
    then (lookup attribute p.leader, p)
    else let q : Peer = take_over attribute p in
      let found = lookup attribute q.leader in
      (found, if is_set found then mark attribute (migrated p) q else q)

-- the loop of `leader_get` without an attribute, over the keys of the relation that are not migrated
pub merge_settings : List String → Settings → Settings → Settings
merge_settings done [] settings = settings
merge_settings done ((k, v) ∷ own) settings =
    merge_settings done own
      (if elem k done || is_set (lookup k settings) then settings else insert k v settings)

pub fresh_keys : List String → List String → List String
fresh_keys done [] = []
fresh_keys done (k ∷ ks) = let rest = fresh_keys done ks in if elem k done then rest else k ∷ rest

pub insert_all : Settings → Settings → Settings
insert_all [] settings = settings
insert_all ((k, v) ∷ more) settings = insert_all more (insert k v settings)

-- the leader's settings after the migration of `fresh` keys
pub set_all : List String → Peer → Settings → Settings × Peer
unfolding insert_all migrated
set_all [] p merged = (merged, p)
set_all (k ∷ ks) p merged = (
  merged,
  record {
    is_leader = p.is_leader;
    leader = insert migration_key (names (migrated p ++ k ∷ ks)) (insert_all merged p.leader);
    own = p.own;
  },
)

-- `leader_get` without an attribute: the settings but for the migration key, and the state after it
pub leader_get_all : Peer → Settings × Peer
unfolding migrated merge_settings fresh_keys set_all
leader_get_all p =
    let merged : Settings = merge_settings (migrated p) p.own (erase migration_key p.leader) in
    if p.is_leader then set_all (fresh_keys (migrated p) (keys p.own)) p merged else (p.leader, p)
