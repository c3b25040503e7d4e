-- ===== src/Contexts/Ceph.antt =====
-- charmhelpers/contrib/openstack/context.py: `CephContext`. One context is filled by all units in turn.
use charm_helpers.Prelude.{
  ℕ, String, List, [], ◌∷◌, ◌++◌, Bool, true, false, not, ◌&&◌, Option, none, some, is_some,
  or_else, if◌then◌else◌, map, Dict, lookup, split_at, join_with, same_text, str_eq,
}
use charm_helpers.Contexts.{Ctxt, Generator, context_complete, given, either_text, format_host}
use charm_helpers.Contexts.Amqp.{RelatedUnit, show, sorted}
pub mod First
mod Tests

-- what the hook sees: `str(config('use-syslog')).lower()`, the options of the pools, the name of the
-- service and whether there is a folder `/etc/ceph`
pub record Ceph : Type 0 where
  pub use_syslog : String
  pub pool_type : Option String
  pub rbd_pool : Option String
  pub rbd_pool_name : Option String
  pub service_name : String
  pub has_folder : Bool
  pub is_ipv6 : String → Bool

-- the keys of the context that the units fill in, where `none` is a key that is not there
pub record Filled : Type 0 where
  pub auth : Option (Option String)
  pub key : Option (Option String)
  pub rbd_features : Option (Option String)
  pub mon_hosts : List String

abbrev pub at : Option (Option String) → Option String
at o = or_else o none

-- `if not ctxt.get(k): ctxt[k] = value`
abbrev pub fill_in : Option (Option String) → Option String → Option (Option String)
fill_in o v = if given (at o) then o else some v

-- the same, for a value that is not `None`
abbrev pub fill_in_known : Option (Option String) → Option String → Option (Option String)
fill_in_known o none = o
fill_in_known o (some s) = fill_in o (some s)

abbrev space : ℕ
space = 32

abbrev format_all : (String → Bool) → List String → List String
format_all is_ipv6 addrs = map (λ a. show (format_host is_ipv6 (some a))) addrs

unfoldable pub addresses : (String → Bool) → RelatedUnit → List String
unfolding format_host
addresses is_ipv6 u =
    if given (lookup "ceph-public-address" u.rdata)
    then format_all is_ipv6 (split_at space (show (lookup "ceph-public-address" u.rdata)))
    else format_all is_ipv6 (u.private_address ∷ [])

-- the loop over the units of all relations
unfoldable pub fill_ceph : (String → Bool) → List RelatedUnit → Filled → Filled
unfolding addresses
fill_ceph is_ipv6 [] f = f
fill_ceph is_ipv6 (u ∷ units) f = fill_ceph is_ipv6 units (record {
  auth = fill_in f.auth (lookup "auth" u.rdata);
  key = fill_in f.key (lookup "key" u.rdata);
  rbd_features = fill_in_known f.rbd_features (lookup "rbd-features" u.rdata);
  mon_hosts = f.mon_hosts ++ addresses is_ipv6 u;
})

unfoldable pub all_units : List (List RelatedUnit) → List RelatedUnit
all_units [] = []
all_units (units ∷ relations) = units ++ all_units relations

abbrev pub entry : String → Option (Option String) → Ctxt
entry k none = []
entry k (some v) = (k, v) ∷ []

-- the pool of the data, where the pools are erasure coded
unfoldable pub data_pool : Ceph → Ctxt
data_pool c =
    if same_text c.pool_type (some "erasure-coded")
    then (
      "rbd_default_data_pool",
      either_text (either_text c.rbd_pool c.rbd_pool_name) (some c.service_name),
    )
      ∷ []
    else []

-- the context, in the order in which its keys are set
unfoldable pub ceph_context : Ceph → Filled → Ctxt
unfolding data_pool
ceph_context c f =
    ("use_syslog", some c.use_syslog)
    ∷ (entry "auth" f.auth
        ++ (entry "key" f.key
            ++ (entry "rbd_features" f.rbd_features
                ++ (("mon_hosts", some (join_with " " (sorted f.mon_hosts))) ∷ data_pool c))))

-- `CephContext.context_complete`
unfoldable pub ceph_complete : Ceph → Filled → Generator → Bool × Generator
unfolding ceph_context context_complete
ceph_complete c f g =
    if is_some f.auth && is_some f.key then context_complete (ceph_context c f) g else (false, g)

-- what is left after a call: the context, whether there is the folder, and whether `ceph-common` was
-- asked for
pub record Called : Type 0 where
  pub result : Ctxt
  pub folder : Bool
  pub ensured : Bool
  pub generator_after : Generator

abbrev pub new_filled : Filled
new_filled = record { auth = none; key = none; rbd_features = none; mon_hosts = [] }

-- `CephContext.__call__`
unfoldable pub ceph_call : Ceph → List (List RelatedUnit) → Generator → Called
unfolding fill_ceph all_units ceph_complete
ceph_call c [] g = record {
  result = [];
  folder = c.has_folder;
  ensured = false;
  generator_after = g;
}
ceph_call c (units ∷ relations) g =
    let f = fill_ceph c.is_ipv6 (all_units (units ∷ relations)) new_filled in
    let (complete, g1) = ceph_complete c f g in
    record {
      result = if complete then ceph_context c f else [];
      folder = true;
      ensured = complete;
      generator_after = g1;
    }
