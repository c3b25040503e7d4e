-- ===== src/Ceph/Tests.antt =====
-- charmhelpers/contrib/storage/linux/ceph.py: concrete requests, and the theorem on them.
use charm_helpers.Prelude.{◌≡◌, refl, String, List, [], ◌∷◌, true, none, some}
use charm_helpers.Ceph.Broker.{
  Rq, equal, ops_equal, same_values, keys_to_compare, Relation, is_request_sent,
  send_request_if_needed,
}
use charm_helpers.Ceph.Broker.Conversation.{send_once}

abbrev profile : String → Rq
profile k = record {
  api_version = 1;
  ops = (("op", some "create-erasure-profile") ∷ ("name", some "p") ∷ ("k", some k) ∷ []) ∷ [];
  request_id = k;
}

-- Two profiles with different numbers of data chunks are equal requests.
equal-profiles : equal (profile "2") (some (profile "4")) ≡ true
unfolding equal ops_equal same_values keys_to_compare
equal-profiles = refl

abbrev relations : List Relation
relations =
    record {
      rid = "ceph:0";
      broker_req = some (profile "4");
      units =
          record {
            reply = some (record { request_id = some "4"; exit_code = some 0 });
            legacy = none;
          }
          ∷ [];
    }
    ∷ []

send_once_example :
    (is_request_sent (profile "2") (send_request_if_needed (profile "2") relations) ≡ true)
    × (send_request_if_needed (profile "2") (send_request_if_needed (profile "2") relations)
        ≡ send_request_if_needed (profile "2") relations)
send_once_example = send_once (profile "2") relations
