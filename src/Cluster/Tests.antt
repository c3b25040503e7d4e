-- ===== src/Cluster/Tests.antt =====
-- charmhelpers/contrib/hahelpers/cluster.py: concrete units and settings, and the theorem on the leader.
use charm_helpers.Prelude.{ℕ, ◌≡◌, refl, [], ◌∷◌, true, false, none, some, ◌==◌}
use charm_helpers.Cluster.{
  is_elected_leader, valid, incorrect_config, incomplete_config, valid_hacluster_config,
  get_hacluster_config, canonical_url,
}
use charm_helpers.Cluster.Elected.{view_of, smallest, has, is_elected_leader_lem}

-- the leader of corosync, whatever its number is
leads_by_corosync :
    is_elected_leader (record {
      number = 2;
      leadership = none;
      ha = (some "yes" ∷ []) ∷ [];
      is_crm_leader = true;
      peers = (0 ∷ []) ∷ [];
    })
    ≡ true
unfolding is_elected_leader
leads_by_corosync = refl

vip_and_dns :
    valid_hacluster_config (record { texts = ("vip", some "10.0.0.1") ∷ []; dns_ha = true })
    ≡ incorrect_config
unfolding valid_hacluster_config
vip_and_dns = refl

dns_without_hostname :
    valid_hacluster_config (record { texts = ("vip", some "") ∷ []; dns_ha = true })
    ≡ incomplete_config
unfolding valid_hacluster_config
dns_without_hostname = refl

excluded :
    get_hacluster_config
      ("os-internal-hostname" ∷ "os-admin-hostname" ∷ "os-public-hostname" ∷ "os-access-hostname"
        ∷ [])
      (record {
        texts = ("vip", some "10.0.0.1") ∷ ("ha-mcastport", some "5959") ∷ [];
        dns_ha = false;
      })
    ≡ (
      valid,
      ("ha-bindiface", none) ∷ ("ha-mcastport", some "5959") ∷ ("vip", some "10.0.0.1") ∷ [],
    )
unfolding get_hacluster_config
excluded = refl

clustered_url :
    canonical_url
      ("https" ∷ [])
      "vip"
      (some "10.0.0.9")
      (record { texts = ("vip", some "10.0.0.1") ∷ []; dns_ha = false })
      (record {
        number = 2;
        leadership = none;
        ha = (none ∷ some "yes" ∷ []) ∷ [];
        is_crm_leader = false;
        peers = [];
      })
    ≡ "https://10.0.0.1"
unfolding canonical_url
clustered_url = refl

is_elected_leader_lem_example :
    (has (smallest 3 (1 ∷ 2 ∷ [])) (3 ∷ 1 ∷ 2 ∷ []) ≡ true)
    × ((n : ℕ)
        → has n (3 ∷ 1 ∷ 2 ∷ []) ≡ true
        → is_elected_leader (view_of (3 ∷ 1 ∷ 2 ∷ []) n) ≡ (n == smallest 3 (1 ∷ 2 ∷ [])))
is_elected_leader_lem_example = is_elected_leader_lem 3 (1 ∷ 2 ∷ [])
