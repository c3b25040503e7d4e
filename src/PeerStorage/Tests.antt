-- ===== src/PeerStorage/Tests.antt =====
-- charmhelpers/contrib/peerstorage/__init__.py: settings that are migrated, and the theorems there.
use charm_helpers.Prelude.{◌≡◌, refl, [], ◌∷◌, true, some}
use charm_helpers.PeerStorage.{text, names, migration_key, Peer, leader_get}
use charm_helpers.PeerStorage.Migration.{Migrates, leader_get-Migrates}
use charm_helpers.PeerStorage.Stored.{
  LocalUnit, peer_store, peer_retrieve, peer_retrieve-peer_store,
}

abbrev peer : Peer
peer = record {
  is_leader = true;
  leader = ("port", text "80") ∷ [];
  own = ("port", text "90") ∷ ("secret", text "s3") ∷ [];
}

abbrev migrated_peer : Peer
migrated_peer = record {
  is_leader = true;
  leader =
      ("port", text "80") ∷ ("secret", text "s3") ∷ (migration_key, names ("secret" ∷ [])) ∷ [];
  own = ("port", text "90") ∷ ("secret", text "s3") ∷ [];
}

leader_get-secret : leader_get "secret" peer ≡ (some (text "s3"), migrated_peer)
unfolding leader_get
leader_get-secret = refl

leader_get-Migrates_example :
    Migrates "secret" peer (leader_get "secret" peer).1 (leader_get "secret" peer).0
leader_get-Migrates_example = leader_get-Migrates "secret" peer refl refl refl

abbrev leader : LocalUnit
leader = record { cluster = "cluster:1" ∷ []; leadership = some (true, []); relations = [] }

abbrev stored_leader : LocalUnit
stored_leader = record {
  cluster = "cluster:1" ∷ [];
  leadership = some (true, ("mykey", text "myval") ∷ []);
  relations = [];
}

peer_store-leader : peer_store ("cluster:1" ∷ []) "mykey" (text "myval") leader ≡ some stored_leader
unfolding peer_store
peer_store-leader = refl

peer_retrieve-peer_store_example :
    peer_retrieve ("cluster:1" ∷ []) "mykey" stored_leader ≡ some (some (text "myval"))
peer_retrieve-peer_store_example =
    peer_retrieve-peer_store "cluster:1" [] "mykey" (text "myval") leader stored_leader refl refl
      refl peer_store-leader
