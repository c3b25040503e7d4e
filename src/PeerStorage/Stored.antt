-- ===== src/PeerStorage/Stored.antt =====
-- charmhelpers/contrib/peerstorage/__init__.py: `relation_set`, `relation_get`, `peer_store` and
-- `peer_retrieve`.
use charm_helpers.Prelude.{
  String, ◌≡◌, refl, sym, ap, ◌∙◌, List, [], ◌∷◌, Bool, true, false, Option, none, some, arith,
  eq_refl, str_eq, if◌then◌else◌, elem, or_else, Dict, lookup, insert, lookup-insert, Bool-cases,
  Option-cases, inl, inr, ◌⊎◌, subst, some-injective,
}
use charm_helpers.PeerStorage.{
  Value, names_setting, Settings, migration_key, is_set, Peer, leader_get,
}
use charm_helpers.PeerStorage.Migration.{leader_get-Migrates}

-- A unit: the ids of its `cluster` relations, whether it leads and the leader's settings where Juju
-- has leadership, and what it has set on each relation.
pub record LocalUnit : Type 0 where
  pub cluster : List String
  pub leadership : Option (Bool × Settings)
  pub relations : Dict Settings

abbrev pub on_relation : String → LocalUnit → Settings
on_relation rid u = or_else (lookup rid u.relations) []

-- `_relation_set` of one setting
abbrev pub set_on : String → String → Value → LocalUnit → LocalUnit
set_on rid key value u = record {
  cluster = u.cluster;
  leadership = u.leadership;
  relations = insert rid (insert key value (on_relation rid u)) u.relations;
}

-- `leader_set` of one setting: none is the error of `leader-set` on a unit that does not lead
abbrev pub set_as_leader : String → Value → Bool × Settings → LocalUnit → Option LocalUnit
set_as_leader key value (leads, settings) u =
    if leads
    then some (record {
      cluster = u.cluster;
      leadership = some (leads, insert key value settings);
      relations = u.relations;
    })
    else none

-- `relation_set` of one setting: where Juju has no leadership it is set on the relation
pub relation_set : String → String → Value → LocalUnit → Option LocalUnit
relation_set rid key value u =
    if elem rid u.cluster
    then elim u.leadership [
      | none ↦ some (set_on rid key value u)
      | some l ↦ set_as_leader key value l u
    ]
    else some (set_on rid key value u)

-- the unit as `leader_get` sees it
abbrev pub peer_of : String → Bool × Settings → LocalUnit → Peer
peer_of rid (leads, settings) u = record {
  is_leader = leads;
  leader = settings;
  own = on_relation rid u;
}

-- `relation_get` of one of the unit's own settings: the answer
pub relation_get : String → String → LocalUnit → Option Value
unfolding leader_get
relation_get attribute rid u =
    if elem rid u.cluster
    then elim u.leadership [
      | none ↦ lookup attribute (on_relation rid u)
      | some l ↦ (leader_get attribute (peer_of rid l u)).0
    ]
    else lookup attribute (on_relation rid u)

-- `peer_store`, with the ids of its relation: none is an error, the ValueError included
unfoldable pub peer_store : List String → String → Value → LocalUnit → Option LocalUnit
unfolding relation_set
peer_store [] key value u = none
peer_store (rid ∷ rids) key value u = relation_set rid key value u

-- `peer_retrieve`: none is its ValueError
pub peer_retrieve : List String → String → LocalUnit → Option (Option Value)
unfolding relation_get
peer_retrieve [] key u = none
peer_retrieve (rid ∷ rids) key u = some (relation_get key rid u)

lookup-set_on :
    (rid key : String) (value : Value) (u : LocalUnit)
    → lookup key (on_relation rid (set_on rid key value u)) ≡ some value
lookup-set_on rid key value u =
    ap (λ o. lookup key (or_else o []))
      (lookup-insert rid rid (insert key value (on_relation rid u)) u.relations)
    ∙ ground (arith, eq_refl rid, lookup-insert key key value (on_relation rid u), eq_refl key)

-- the leader's answer for a setting that it has
leader_get_set :
    (key : String) (value : Value) (p : Peer)
    → p.is_leader ≡ true
    → names_setting key ≡ true
    → str_eq migration_key key ≡ false
    → is_set (some value) ≡ true
    → lookup key p.leader ≡ some value
    → (leader_get key p).0 ≡ some value
leader_get_set key value p l named other s h =
    (leader_get-Migrates key p l named other).answered ∙ ground (arith, s, h)

-- where the relation holds the settings
relation_set_plain :
    (rid key : String) (value : Value) (u : LocalUnit)
    → (elem rid u.cluster ≡ false) ⊎ (u.leadership ≡ none)
    → relation_set rid key value u ≡ some (set_on rid key value u)
unfolding relation_set
relation_set_plain rid key value u (inl e) = rw (e, relation_set) refl
relation_set_plain rid key value u (inr n) = elim (Bool-cases (elem rid u.cluster)) [
  | inl e ↦
      rw (e, n, relation_set)
        (ap
          (λ o. some (record {
            cluster = u.cluster;
            leadership = o;
            relations = insert rid (insert key value (on_relation rid u)) u.relations;
          }))
          n)
  | inr e ↦ rw (e, relation_set) refl
]

relation_get_plain :
    (rid key : String) (u : LocalUnit)
    → (elem rid u.cluster ≡ false) ⊎ (u.leadership ≡ none)
    → relation_get key rid u ≡ lookup key (on_relation rid u)
unfolding relation_get
relation_get_plain rid key u (inl e) = rw (e, relation_get) refl
relation_get_plain rid key u (inr n) = elim (Bool-cases (elem rid u.cluster)) [
  | inl e ↦ rw (e, n, relation_get) refl
  | inr e ↦ rw (e, relation_get) refl
]

-- where the leader holds them
relation_set_leader :
    (rid key : String) (value : Value) (u : LocalUnit) (l : Bool × Settings)
    → elem rid u.cluster ≡ true
    → u.leadership ≡ some l
    → relation_set rid key value u ≡ set_as_leader key value l u
unfolding relation_set
relation_set_leader rid key value u l e h = rw (e, h, relation_set) refl

relation_get_leader :
    (rid key : String) (u : LocalUnit) (l : Bool × Settings)
    → elem rid u.cluster ≡ true
    → u.leadership ≡ some l
    → relation_get key rid u ≡ (leader_get key (peer_of rid l u)).0
unfolding relation_get
relation_get_leader rid key u l e h = rw (e, h, relation_get) refl

get-set_as_leader :
    (rid key : String) (value : Value) (u stored : LocalUnit) (l : Bool × Settings)
    → elem rid u.cluster ≡ true
    → names_setting key ≡ true
    → str_eq migration_key key ≡ false
    → is_set (some value) ≡ true
    → set_as_leader key value l u ≡ some stored
    → relation_get key rid stored ≡ some value
get-set_as_leader rid key value u stored (false, settings) e named other s h = cc
get-set_as_leader rid key value u stored (true, settings) e named other s h =
    subst (λ x. relation_get key rid x ≡ some value) (some-injective _ _ h)
      (relation_get_leader rid key _ (true, insert key value settings) e refl
        ∙ leader_get_set key value _ refl named other s
            (ground (arith, lookup-insert key key value settings, eq_refl key)))

-- A value other than the empty text that `peer_store` stored, under a key that names one setting and is
-- not the migration key, is what `peer_retrieve` gives back, on a `cluster` relation or another one, with leadership or
-- without it.
pub peer_retrieve-peer_store :
    (rid : String) (rids : List String) (key : String) (value : Value) (u stored : LocalUnit)
    → names_setting key ≡ true
    → str_eq migration_key key ≡ false
    → is_set (some value) ≡ true
    → peer_store (rid ∷ rids) key value u ≡ some stored
    → peer_retrieve (rid ∷ rids) key stored ≡ some (some value)
unfolding peer_retrieve peer_store
peer_retrieve-peer_store rid rids key value u stored named other s h =
    elim (Bool-cases (elem rid u.cluster)) [
      | inl e ↦ elim (Option-cases u.leadership) [
        | inl n ↦ plain (inr n)
        | inr (l, f) ↦ ap some (
            get-set_as_leader rid key value u stored l e named other s
              (sym (relation_set_leader rid key value u l e f) ∙ h))
      ]
      | inr e ↦ plain (inl e)
    ]
  where
    plain :
        (elem rid u.cluster ≡ false) ⊎ (u.leadership ≡ none)
        → some (relation_get key rid stored) ≡ some (some value)
    plain c = ap some (
        subst (λ x. relation_get key rid x ≡ some value)
          (some-injective _ _ (sym (relation_set_plain rid key value u c) ∙ h))
          (relation_get_plain rid key (set_on rid key value u) c ∙ lookup-set_on rid key value u))
