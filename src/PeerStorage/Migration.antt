-- ===== src/PeerStorage/Migration.antt =====
-- charmhelpers/contrib/peerstorage/__init__.py: what `leader_get` of one attribute does, and that it
-- does it once.
use charm_helpers.Prelude.{
  String, ◌≡◌, refl, sym, ap, ◌∙◌, subst, List, [], ◌∷◌, true, false, not, ◌&&◌, ◌||◌, Option, some,
  arith, eq_refl, str_eq, if◌then◌else◌, elem, elem-append, lookup, lookup-insert, Bool-cases,
  Option-cases, inl, inr, add_once,
}
use mathlib.Core.Bool.{false≢true}
use charm_helpers.PeerStorage.{
  Value, names, names_setting, Settings, migration_key, is_set, Peer, names_of, migrated, take_over,
  mark, leader_get,
}

-- The leader's setting wins over that of the relation.
lookup-take_over :
    (attribute : String) (p : Peer)
    → let q = take_over attribute p in
      lookup attribute q.leader ≡ (
        if is_set (lookup attribute p.leader) || not (is_set (lookup attribute p.own))
        then lookup attribute p.leader
        else lookup attribute p.own)
unfolding take_over
lookup-take_over attribute p = elim (Option-cases (lookup attribute p.own)) [
  | inl e ↦ ground (arith, e)
  | inr (v, e) ↦ ground (arith, e, lookup-insert attribute attribute v p.leader, eq_refl attribute)
]

elem-add_once : (x : String) (xs : List String) → elem x (add_once x xs) ≡ true
elem-add_once x xs = elim (Bool-cases (elem x xs)) [
  | inl e ↦ rw (e) e
  | inr e ↦ rw (e) (ground (arith, elem-append x xs (x ∷ []), eq_refl x))
]

migrated-mark :
    (attribute : String) (done : List String) (p : Peer)
    → elem attribute (migrated (mark attribute done p)) ≡ true
unfolding migrated mark
migrated-mark attribute done p =
    ap (λ o. elem attribute (names_of o))
      (lookup-insert migration_key migration_key (names (add_once attribute done)) p.leader)
    ∙ elem-add_once attribute done

lookup-mark :
    (attribute : String) (done : List String) (p : Peer)
    → str_eq migration_key attribute ≡ false
    → lookup attribute (mark attribute done p).leader ≡ lookup attribute p.leader
unfolding mark
lookup-mark attribute done p other =
    ground (
      arith,
      other,
      lookup-insert migration_key attribute (names (add_once attribute done)) p.leader,
    )

-- the value that `leader_get` answers
abbrev pub answer : String → Peer → Option Value
answer attribute p =
    if elem attribute (migrated p)
      || is_set (lookup attribute p.leader)
      || not (is_set (lookup attribute p.own))
    then lookup attribute p.leader
    else lookup attribute p.own

leader_get-migrated :
    (attribute : String) (p : Peer)
    → p.is_leader ≡ true
    → elem attribute (migrated p) ≡ true
    → leader_get attribute p ≡ (lookup attribute p.leader, p)
unfolding leader_get
leader_get-migrated attribute p l h = rw (l, h, leader_get) refl

leader_get_first :
    (attribute : String) (p : Peer)
    → p.is_leader ≡ true
    → elem attribute (migrated p) ≡ false
    → leader_get attribute p ≡ (
      lookup attribute (take_over attribute p).leader,
      if is_set (lookup attribute (take_over attribute p).leader)
          then mark attribute (migrated p) (take_over attribute p)
          else take_over attribute p,
    )
unfolding leader_get
leader_get_first attribute p l h = rw (l, h, leader_get) refl

take_over-is_leader :
    (attribute : String) (p : Peer) → (take_over attribute p).is_leader ≡ p.is_leader
unfolding take_over
take_over-is_leader attribute p = elim (Option-cases (lookup attribute p.own)) [
  | inl e ↦ ground (arith, e)
  | inr (v, e) ↦ ground (arith, e)
]

-- Where no value is found, nothing was taken over.
take_over_unset :
    (attribute : String) (p : Peer)
    → is_set (lookup attribute (take_over attribute p).leader) ≡ false
    → take_over attribute p ≡ p
unfolding take_over
take_over_unset attribute p h = elim (Option-cases (lookup attribute p.own)) [
  | inl e ↦ rw (e, take_over) refl
  | inr (v, e) ↦ elim (Bool-cases (not (is_set (lookup attribute p.leader)) && is_set (some v))) [
    | inl c ↦
        absurd
          (false≢true (sym h ∙ ap is_set (lookup-take_over attribute p) ∙ ground (arith, c, e)))
    | inr c ↦ rw (e, take_over) (rw (c) refl)
  ]
]

abbrev pub with_own : Settings → Peer → Peer
with_own own p = record { is_leader = p.is_leader; leader = p.leader; own = own }

-- A call of `leader_get` that answers `v` and leaves `q`: the answer, that it is stored, that a second
-- call answers the same and changes nothing, and that once there is a value the relation has no say.
pub record Migrates (attribute : String) (p q : Peer) (v : Option Value) : Type 0 where
  pub answered : v ≡ answer attribute p
  pub stored : lookup attribute q.leader ≡ v
  pub again : leader_get attribute q ≡ (v, q)
  pub settled :
      (own : Settings)
      → is_set v ≡ true
      → leader_get attribute (with_own own q) ≡ (v, with_own own q)

-- On the leader, for an attribute that names one setting, other than the migration key, `leader_get` answers the leader's
-- setting, unless that is unset or empty, the attribute was not migrated, and this unit has set it on
-- the peer relation: then it answers the unit's setting. The answer is the leader's setting from then
-- on: another call changes nothing and answers the same, whatever the relation has by then, if there
-- is a value at all.
pub leader_get-Migrates :
    (attribute : String) (p : Peer)
    → p.is_leader ≡ true
    → names_setting attribute ≡ true
    → str_eq migration_key attribute ≡ false
    → Migrates attribute p (leader_get attribute p).1 (leader_get attribute p).0
unfolding migrated mark
leader_get-Migrates attribute p l named other = elim (Bool-cases (elem attribute (migrated p))) [
  | inl h ↦
      subst (λ r. Migrates attribute p r.1 r.0) (sym (leader_get-migrated attribute p l h))
        (record {
          answered = ground (arith, h);
          stored = refl;
          again = leader_get-migrated attribute p l h;
          settled = λ own _. leader_get-migrated attribute (with_own own p) l (migrated-own own h);
        })
  | inr h ↦
      subst (λ r. Migrates attribute p r.1 r.0) (sym (leader_get_first attribute p l h)) (first h)
]
  where
    migrated-own :
        (own : Settings)
        → elem attribute (migrated p) ≡ true
        → elem attribute (migrated (with_own own p)) ≡ true
    migrated-own own h = h

    q : Peer
    q = take_over attribute p

    marks : Peer
    marks = mark attribute (migrated p) q

    leads : marks.is_leader ≡ true
    leads = take_over-is_leader attribute p ∙ l

    marked :
        (r : Peer)
        → r.leader ≡ marks.leader
        → r.is_leader ≡ true
        → elem attribute (migrated r) ≡ true
        → leader_get attribute r ≡ (lookup attribute q.leader, r)
    marked r same lead done =
        leader_get-migrated attribute r lead done
        ∙ ap (λ v. (v, r)) (ap (lookup attribute) same ∙ lookup-mark attribute (migrated p) q other)

    first :
        elem attribute (migrated p) ≡ false
        → Migrates attribute p
            (if is_set (lookup attribute q.leader) then mark attribute (migrated p) q else q)
            (lookup attribute q.leader)
    first h = elim (Bool-cases (is_set (lookup attribute q.leader))) [
      | inl s ↦
          subst
            (λ b.
              Migrates attribute p (if b then mark attribute (migrated p) q else q)
                (lookup attribute q.leader))
            (sym s)
            (record {
              answered = ground (arith, h, lookup-take_over attribute p);
              stored = lookup-mark attribute (migrated p) q other;
              again = marked marks refl leads (migrated-mark attribute (migrated p) q);
              settled = λ own _.
                  marked (with_own own marks) refl leads (migrated-mark attribute (migrated p) q);
            })
      | inr s ↦
          subst
            (λ b.
              Migrates attribute p (if b then mark attribute (migrated p) q else q)
                (lookup attribute q.leader))
            (sym s)
            (record {
              answered = ground (arith, h, lookup-take_over attribute p);
              stored = refl;
              again =
                  ap (leader_get attribute) (take_over_unset attribute p s)
                  ∙ leader_get_first attribute p l h
                  ∙ ap (λ b. (lookup attribute q.leader, if b then marks else q)) s;
              settled = λ own set. absurd (false≢true (sym s ∙ set));
            })
    ]
