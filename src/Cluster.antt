-- ===== src/Cluster.antt =====
-- charmhelpers/contrib/hahelpers/cluster.py: which unit leads, and the configuration of a cluster. A
-- unit is the number in its name; what juju and corosync answer is an argument.
use charm_helpers.Prelude.{
  ℕ, String, List, [], ◌∷◌, ◌++◌, Bool, true, false, not, ◌&&◌, ◌||◌, Option, none, some, or_else,
  if◌then◌else◌, any, select, ltb, Dict, lookup, str_eq, elem,
}
use Prim.Native.String.{◌++◌ as str_append}
use charm_helpers.Host.Spread.{oldest_peer}
use charm_helpers.Contexts.{given, is_nil}
pub mod Elected
mod Tests

-- What a unit sees: its number, what `is-leader` answers where Juju has leadership, what the units of
-- its `ha` relations have sent as `clustered`, whether corosync has it as the leader of the resource,
-- and the units of its peer relations.
pub record View : Type 0 where
  pub number : ℕ
  pub leadership : Option Bool
  pub ha : List (List (Option String))
  pub is_crm_leader : Bool
  pub peers : List (List ℕ)

-- `is_clustered`
unfoldable pub is_clustered : View → Bool
is_clustered v = any (λ units. any given units) v.ha

unfoldable pub join_units : List (List ℕ) → List ℕ
join_units [] = []
join_units (units ∷ relations) = units ++ join_units relations

-- `peer_units`
unfoldable pub peer_units : View → List ℕ
unfolding join_units
peer_units v = join_units v.peers

-- `is_elected_leader`
unfoldable pub is_elected_leader : View → Bool
unfolding is_clustered peer_units oldest_peer
is_elected_leader v = elim v.leadership [
  | some leads ↦ leads
  | none ↦
      if is_clustered v
      then v.is_crm_leader
      else is_nil (peer_units v) || oldest_peer v.number (peer_units v)
]

-- the settings of the charm, with the switch `dns-ha` apart
pub record Settings : Type 0 where
  pub texts : Dict (Option String)
  pub dns_ha : Bool

abbrev pub config_get : Settings → String → Option String
config_get s k = or_else (lookup k s.texts) none

-- how the check of the configuration ends, and the exceptions that it raises, each with the workload
-- status blocked
pub data Checked : Type 0 where
  valid : Checked
  incorrect_config : Checked
  incomplete_config : Checked

abbrev pub hostnames : List String
hostnames =
    "os-internal-hostname" ∷ "os-admin-hostname" ∷ "os-public-hostname" ∷ "os-access-hostname" ∷ []

-- `valid_hacluster_config`
unfoldable pub valid_hacluster_config : Settings → Checked
valid_hacluster_config s =
    if (given (config_get s "vip") && s.dns_ha) || not (given (config_get s "vip") || s.dns_ha)
    then incorrect_config
    else if s.dns_ha
    then if any (λ k. given (config_get s k)) hostnames then valid else incomplete_config
    else valid

abbrev pub settings_of_cluster : List String
settings_of_cluster = "ha-bindiface" ∷ "ha-mcastport" ∷ "vip" ∷ hostnames

abbrev pub take_settings : Settings → List String → Dict (Option String)
take_settings s [] = []
take_settings s (k ∷ ks) = (k, config_get s k) ∷ take_settings s ks

-- `get_hacluster_config`: the settings, if the configuration is valid
unfoldable pub get_hacluster_config : List String → Settings → Checked × Dict (Option String)
unfolding valid_hacluster_config
get_hacluster_config exclude_keys s = elim (valid_hacluster_config s) [
  | valid ↦ (valid, take_settings s (select (λ k. not (elem k exclude_keys)) settings_of_cluster))
  | incorrect_config ↦ (incorrect_config, [])
  | incomplete_config ↦ (incomplete_config, [])
]

abbrev text_of : Option String → String
text_of none = "None"
text_of (some s) = s

-- `canonical_url`, by the names of the complete contexts and the address that `unit-get` answers
unfoldable pub canonical_url : List String → String → Option String → Settings → View → String
unfolding is_clustered
canonical_url complete_contexts vip_setting private_address s v =
    str_append (if elem "https" complete_contexts then "https" else "http") (
      str_append "://"
        (text_of (if is_clustered v then config_get s vip_setting else private_address)))
