-- ===== src/PeerStorage/Merged.antt =====
-- charmhelpers/contrib/peerstorage/__init__.py: what `leader_get` without an attribute answers.
use charm_helpers.Prelude.{
  String, ◌≡◌, refl, ap, ◌∙◌, List, [], ◌∷◌, Bool, true, false, not, ◌||◌, arith, eq_iff, str_eq,
  if◌then◌else◌, elem, Unique, lookup, contains, insert, erase, keys, lookup-insert, lookup-erase,
  Bool-cases, inl, inr,
}
use charm_helpers.PeerStorage.{
  Settings, migration_key, is_set, Peer, migrated, merge_settings, fresh_keys, set_all,
  leader_get_all,
}

lookup-merge_settings :
    (k : String) (done : List String) (own settings : Settings)
    → Unique own
    → lookup k (merge_settings done own settings) ≡ (
        if elem k done || is_set (lookup k settings) || not (contains k own)
        then lookup k settings
        else lookup k own)
unfolding merge_settings
lookup-merge_settings k done [] settings u = ground arith
lookup-merge_settings k done ((j, v) ∷ own) settings u =
    elim (Bool-cases (elem j done || is_set (lookup j settings))) [
      | inl h ↦
          rw (h, merge_settings)
            (lookup-merge_settings k done own settings u.1 ∙ ground (arith, h, u.0, eq_iff j k))
      | inr h ↦
          rw (h, merge_settings)
            (lookup-merge_settings k done own (insert j v settings) u.1
              ∙ ground (arith, h, u.0, eq_iff j k, lookup-insert j k v settings))
    ]

set_all-answer :
    (ks : List String) (p : Peer) (merged : Settings) → (set_all ks p merged).0 ≡ merged
unfolding set_all
set_all-answer [] p merged = refl
set_all-answer (k ∷ ks) p merged = refl

-- On the leader, `leader_get` without an attribute answers under every key but the migration key the
-- leader's setting, unless that is unset or empty, the key was not migrated, and this unit has the key
-- on the peer relation: then it answers what the unit has there.
pub leader_get_all_answer :
    (p : Peer) (k : String)
    → p.is_leader ≡ true
    → Unique p.own
    → str_eq migration_key k ≡ false
    → lookup k (leader_get_all p).0 ≡ (
        if elem k (migrated p) || is_set (lookup k p.leader) || not (contains k p.own)
        then lookup k p.leader
        else lookup k p.own)
unfolding leader_get_all
leader_get_all_answer p k l u other =
    ap (λ b. lookup k (choose b).0) l
    ∙ ap (lookup k) (set_all-answer (fresh_keys (migrated p) (keys p.own)) p merged)
    ∙ lookup-merge_settings k (migrated p) p.own (erase migration_key p.leader) u
    ∙ ground (arith, other, lookup-erase migration_key k p.leader)
  where
    merged : Settings
    merged = merge_settings (migrated p) p.own (erase migration_key p.leader)

    choose : Bool → Settings × Peer
    choose b = if b then set_all (fresh_keys (migrated p) (keys p.own)) p merged else (p.leader, p)
