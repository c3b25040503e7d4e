-- ===== src/Coordinator/Release.antt =====
-- charmhelpers/coordinator.py: `_release_granted` and `acquire`.
use charm_helpers.Prelude.{
  String, ◌≡◌, refl, ◌∙◌, List, [], ◌∷◌, Bool, true, false, ◌&&◌, none, some, arith, str_eq, eq_iff,
  eq_refl, if◌then◌else◌, or_else, elem, Dict, lookup, contains, insert, erase, keys, lookup-insert,
  lookup-erase, some_of_is_some, Option-cases, Bool-cases, inl, inr,
}
use charm_helpers.Coordinator.{
  Locks, State, HookEnv, held, same_time, granted, release, release_all, release_granted, request,
  set_default, write,
}
use charm_helpers.Coordinator.Grants.{held-write}

-- Whether the leader has granted what the unit asks for: the meaning of `granted`.
abbrev pub is_mine : HookEnv → String → State → Bool
is_mine e lock s = elim (held e.unit lock s.requests) [
  | none ↦ false
  | some ts ↦ same_time (held e.unit lock s.grants) ts
]

pub granted_lem :
    (e : HookEnv) (lock : String) (s : State)
    → contains e.unit s.requests ≡ true
    → granted e lock s ≡ some (is_mine e lock s)
unfolding granted
granted_lem e lock s h = ground arith

release_lem :
    (e : HookEnv) (lock : String) (s : State)
    → contains e.unit s.requests ≡ true
    → (s' : State) × (release e lock s ≡ some s')
      × (s'.grants ≡ s.grants)
      × (contains e.unit s'.requests ≡ true)
      × ((v k : String)
          → held v k s'.requests ≡ (
              if str_eq e.unit v && (str_eq lock k && is_mine e k s)
              then none
              else held v k s.requests))
unfolding release
release_lem e lock s h =
    let (own, eq) = some_of_is_some (lookup e.unit s.requests) h in
    elim (Bool-cases (is_mine e lock s)) [
      | inr other ↦
          (s, ground (arith, granted_lem e lock s h), refl, h, λ v k. ground (arith, eq_iff lock k))
      | inl mine ↦
          let left = erase lock own in
          (
            record s { requests = insert e.unit left s.requests },
            ground (arith, granted_lem e lock s h),
            refl,
            ground (arith, lookup-insert e.unit e.unit left s.requests, eq_refl e.unit),
            λ v k. ground (
              arith,
              lookup-insert e.unit v left s.requests,
              lookup-erase lock k own,
              eq_iff lock k,
              eq_iff e.unit v,
            ),
          )
    ]

release_all_lem :
    (e : HookEnv) (locks : List String) (s : State)
    → contains e.unit s.requests ≡ true
    → (s' : State) × (release_all e locks s ≡ some s')
      × (s'.grants ≡ s.grants)
      × ((v k : String)
          → held v k s'.requests ≡ (
              if str_eq e.unit v && (elem k locks && is_mine e k s)
              then none
              else held v k s.requests))
unfolding release_all
release_all_lem e [] s h = (s, refl, refl, λ v k. ground arith)
release_all_lem e (lock ∷ rest) s h =
    let (s1, one, same, h1, effect) = release_lem e lock s h in
    let (s', done, same', effects) = release_all_lem e rest s1 h1 in
    (
      s',
      rw one done,
      same' ∙ same,
      λ v k. ground (
        arith,
        effects v k,
        effect v k,
        effect e.unit k,
        same,
        eq_iff lock k,
        eq_iff k lock,
        eq_refl e.unit,
        eq_iff e.unit v,
      ),
    )

elem-keys : (k : String) (locks : Locks) → elem k (keys locks) ≡ contains k locks
elem-keys k [] = refl
elem-keys k ((j, t) ∷ locks) = ground (arith, elem-keys k locks, eq_iff j k, eq_iff k j)

-- At the end of a hook `_release_granted` raises no KeyError, leaves the grants alone, and drops
-- exactly the local unit's requests that are granted: every other request of the unit and every
-- request of another unit is as it was.
pub release_granted_effect :
    (e : HookEnv) (s : State)
    → contains e.unit s.requests ≡ true
    → (s' : State) × (release_granted e s ≡ some s')
      × (s'.grants ≡ s.grants)
      × ((v lock : String)
          → held v lock s'.requests
            ≡ (if str_eq e.unit v && is_mine e lock s then none else held v lock s.requests))
unfolding release_granted
release_granted_effect e s h =
    let (own, eq) = some_of_is_some (lookup e.unit s.requests) h in
    let (s', done, same, effects) = release_all_lem e (keys own) s h in
    (s', rw eq done, same, λ v k. ground (arith, effects v k, elem-keys k own, eq_iff e.unit v))

held-set_default :
    (key u l : String) (table : Dict Locks) → held u l (set_default key table) ≡ held u l table
unfolding set_default
held-set_default key u l table = ground (arith, lookup-insert key u [] table, eq_iff key u)

-- A request of `acquire` for a lock raises no KeyError. An outstanding request keeps its timestamp,
-- and so its place in the queue; otherwise the unit's request for the lock gets the time of the
-- hook. No other request and no grant changes.
pub request_effect :
    (e : HookEnv) (lock : String) (s : State)
    → contains e.unit s.requests ≡ true
    → (s' : State) × (request e lock s ≡ some s')
      × (s'.grants ≡ s.grants)
      × ((v k : String)
          → held v k s'.requests ≡ (
              if str_eq e.unit v && str_eq lock k
              then some (or_else (held v k s.requests) e.now)
              else held v k s.requests))
unfolding request
request_effect e lock s h =
    let (own, eq) = some_of_is_some (lookup e.unit s.requests) h in
    elim (Option-cases (lookup lock own)) [
      | inr (ts, old) ↦
          (s, ground arith, refl, λ v k. ground (arith, eq_iff e.unit v, eq_iff lock k))
      | inl new ↦
          let table = set_default lock s.requests in
          (
            record s { requests = write e.unit lock e.now table },
            ground arith,
            refl,
            λ v k. ground (
              arith,
              held-write e.unit lock v k e.now table,
              held-set_default lock v k s.requests,
              eq_iff e.unit v,
              eq_iff lock k,
            ),
          )
    ]

-- A new request also enters the name of the lock itself among the units, where no unit of that name
-- was: after it `requests` has the lock's name as a key.
pub request_adds_lock_as_unit :
    (e : HookEnv) (lock : String) (s s' : State)
    → held e.unit lock s.requests ≡ none
    → contains lock s.requests ≡ false
    → request e lock s ≡ some s'
    → contains lock s'.requests ≡ true
unfolding request set_default
request_adds_lock_as_unit e lock s s' none_yet no_unit h =
    let table = insert lock [] s.requests in
    ground (
      arith,
      Option-cases (lookup e.unit s.requests),
      lookup-insert e.unit lock (insert lock e.now (or_else (lookup e.unit table) [])) table,
      lookup-insert lock lock [] s.requests,
      eq_refl lock,
    )
