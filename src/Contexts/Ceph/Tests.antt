-- ===== src/Contexts/Ceph/Tests.antt =====
-- charmhelpers/contrib/openstack/context.py: concrete contexts of Ceph, and the theorem on them.
use charm_helpers.Prelude.{
  ◌≡◌, refl, List, [], ◌∷◌, false, ◌&&◌, none, some, is_some, if◌then◌else◌, lookup,
}
use charm_helpers.Contexts.{new_generator}
use charm_helpers.Contexts.Search.{all_given}
use charm_helpers.Contexts.Amqp.{RelatedUnit}
use charm_helpers.Contexts.Ceph.{Ceph, all_units, fill_ceph, new_filled, ceph_call}
use charm_helpers.Contexts.Ceph.First.{first_sent, others, ceph_call_lem}

abbrev glance : Ceph
glance = record {
  use_syslog = "false";
  pool_type = some "erasure-coded";
  rbd_pool = none;
  rbd_pool_name = none;
  service_name = "glance";
  has_folder = false;
  is_ipv6 = λ s. false;
}

-- one monitor has sent the kind of the authentication, and the other one the key
abbrev monitors : List RelatedUnit
monitors =
    record { private_address = "h2"; rdata = ("auth", "cephx") ∷ [] }
    ∷ record {
      private_address = "h0";
      rdata = ("key", "k") ∷ ("ceph-public-address", "h3 h1") ∷ [];
    }
    ∷ []

fills_from_both :
    (ceph_call glance (monitors ∷ []) new_generator).result
    ≡ ("use_syslog", some "false")
      ∷ ("auth", some "cephx")
      ∷ ("key", some "k")
      ∷ ("mon_hosts", some "h1 h2 h3")
      ∷ ("rbd_default_data_pool", some "glance")
      ∷ []
unfolding ceph_call
fills_from_both = refl

no_relation : (ceph_call glance [] new_generator).result ≡ []
unfolding ceph_call
no_relation = refl

ceph_call_lem_example :
    ((ceph_call glance (monitors ∷ []) new_generator).ensured ≡ (
      is_some (first_sent "auth" (all_units (monitors ∷ [])))
      && is_some (first_sent "key" (all_units (monitors ∷ [])))
      && all_given
          (others glance (fill_ceph glance.is_ipv6 (all_units (monitors ∷ [])) new_filled))))
    × ((lookup "auth" (ceph_call glance (monitors ∷ []) new_generator).result ≡ (
          if (ceph_call glance (monitors ∷ []) new_generator).ensured
          then some (first_sent "auth" (all_units (monitors ∷ [])))
          else none))
        × (lookup "key" (ceph_call glance (monitors ∷ []) new_generator).result ≡ (
            if (ceph_call glance (monitors ∷ []) new_generator).ensured
            then some (first_sent "key" (all_units (monitors ∷ [])))
            else none)))
ceph_call_lem_example = ceph_call_lem glance monitors [] new_generator
