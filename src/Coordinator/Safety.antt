-- ===== src/Coordinator/Safety.antt =====
-- charmhelpers/coordinator.py: mutual exclusion under `Serial`, over whole hooks.
use charm_helpers.Prelude.{
  String, ◌≡◌, refl, List, [], ◌∷◌, Bool, true, false, Option, some, arith, eq_refl, contains,
  or_else, Dict, lookup, insert, erase, keys, lookup-insert, Unique, insert-Unique, some_of_ne-none,
  some_of_is_some, Option-cases, Bool-cases, inl, inr,
}
use charm_helpers.Coordinator.{
  Locks, State, HookEnv, held, grant, default_grant, request, granted, set_default, acquire,
  release, release_all, release_granted, clear_released, all_requests, grant_all, handle,
}
use charm_helpers.Coordinator.Grants.{grant-Granted}
use charm_helpers.Coordinator.Exclusive.{
  Exclusive, Granted-Exclusive, Granted-requests, clear_released-held,
}
use charm_helpers.Coordinator.Total.{grant-ne-none}

-- What holds of a unit's state from `initialize` to the end of the hook.
pub record IsReady (e : HookEnv) (s : State) : Type 0 where
  pub unique : Unique s.requests
  pub local : contains e.unit s.requests ≡ true
  pub exclusive : Exclusive s.grants

-- A step that raises no KeyError and keeps the state ready.
abbrev pub Keeps : HookEnv → Option State → Type 0
Keeps e r = (s : State) × (r ≡ some s) × IsReady e s

grant-Keeps :
    (e : HookEnv) (lock unit : String) (s : State)
    → IsReady e s
    → (b : Bool) × (s' : State) × (grant e default_grant lock unit s ≡ some (b, s')) × IsReady e s'
grant-Keeps e lock unit s h =
    let ((b, s'), eq) = some_of_ne-none _ (grant-ne-none e default_grant lock unit s h.unique) in
    let g = grant-Granted e lock unit s s' b eq in
    (
      b,
      s',
      eq,
      record {
        unique = rw (Granted-requests g) h.unique;
        local = rw (Granted-requests g) h.local;
        exclusive = Granted-Exclusive g h.exclusive;
      },
    )

grant_all-Keeps :
    (e : HookEnv) (todo : List (String × String)) (s : State)
    → IsReady e s
    → Keeps e (grant_all e default_grant todo s)
unfolding grant_all
grant_all-Keeps e [] s h = (s, refl, h)
grant_all-Keeps e ((lock, u) ∷ rest) s h =
    let (b, s', eq, h') = grant-Keeps e lock u s h in rw eq (grant_all-Keeps e rest s' h')

clear_released-Exclusive :
    (requests g : Dict Locks) → Exclusive g → Exclusive (clear_released requests g)
clear_released-Exclusive requests g h = record {
  one = λ lock u v hu hv.
      let (tu, eu) = some_of_is_some (held u lock (clear_released requests g)) hu in
      let (tv, ev) = some_of_is_some (held v lock (clear_released requests g)) hv in
      h.one lock u v (clear_released-held requests u lock tu g eu).0
        (clear_released-held requests v lock tv g ev).0;
}

pub handle-Keeps : (e : HookEnv) (s : State) → IsReady e s → Keeps e (handle e default_grant s)
unfolding handle
handle-Keeps e s h =
    let cleared = record s { grants = clear_released s.requests s.grants } in
    let (s', eq, h') = grant_all-Keeps e (all_requests s.requests) cleared (record {
      unique = h.unique;
      local = h.local;
      exclusive = clear_released-Exclusive s.requests s.grants h.exclusive;
    }) in
    elim (Bool-cases e.is_leader) [
      | inl leads ↦ (s', ground arith, h')
      | inr follows ↦ (s, ground arith, h)
    ]

pub contains-insert_self :
    {V : Type 0} (k : String) (v : V) (d : Dict V) → contains k (insert k v d) ≡ true
contains-insert_self k v d = ground (arith, lookup-insert k k v d, eq_refl k)

set_default-Unique :
    (key : String) (table : Dict Locks) → Unique table → Unique (set_default key table)
unfolding set_default
set_default-Unique key table h = ground (arith, insert-Unique key [] table h)

request-Keeps : (e : HookEnv) (lock : String) (s : State) → IsReady e s → Keeps e (request e lock s)
unfolding request
request-Keeps e lock s h =
    let (own, eq) = some_of_is_some (lookup e.unit s.requests) h.local in
    elim (Option-cases (lookup lock own)) [
      | inr (ts, old) ↦ (s, ground arith, h)
      | inl new ↦
          let table = set_default lock s.requests in
          let mine = insert lock e.now (or_else (lookup e.unit table) []) in
          (
            record s { requests = insert e.unit mine table },
            ground arith,
            record {
              unique =
                  insert-Unique e.unit mine table (set_default-Unique lock s.requests h.unique);
              local = contains-insert_self e.unit mine table;
              exclusive = h.exclusive;
            },
          )
    ]

granted_total :
    (e : HookEnv) (lock : String) (s : State)
    → IsReady e s
    → (b : Bool) × (granted e lock s ≡ some b)
unfolding granted
granted_total e lock s h =
    let (own, eq) = some_of_is_some (lookup e.unit s.requests) h.local in rw eq (_, refl)

pub acquire-Keeps :
    (e : HookEnv) (lock : String) (s : State)
    → IsReady e s
    → (b : Bool) × (s' : State) × (acquire e default_grant lock s ≡ some (b, s')) × IsReady e s'
unfolding acquire
acquire-Keeps e lock s h =
    let (s', asked, h') = request-Keeps e lock s h in
    let (mine, answer) = granted_total e lock s' h' in
    let (b, s'', done, h'') = grant-Keeps e lock e.unit s' h' in
    elim (Bool-cases mine) [
      | inl y ↦ (true, s', ground arith, h')
      | inr n ↦ elim (Bool-cases e.is_leader) [
        | inl leads ↦ (b, s'', ground arith, h'')
        | inr follows ↦ (false, s', ground arith, h')
      ]
    ]

release-Keeps : (e : HookEnv) (lock : String) (s : State) → IsReady e s → Keeps e (release e lock s)
unfolding release
release-Keeps e lock s h =
    let (own, eq) = some_of_is_some (lookup e.unit s.requests) h.local in
    let (mine, answer) = granted_total e lock s h in
    elim (Bool-cases mine) [
      | inr n ↦ (s, ground arith, h)
      | inl y ↦
          let table = insert e.unit (erase lock own) s.requests in
          (
            record s { requests = table },
            ground arith,
            record {
              unique = insert-Unique e.unit (erase lock own) s.requests h.unique;
              local = contains-insert_self e.unit (erase lock own) s.requests;
              exclusive = h.exclusive;
            },
          )
    ]

release_all-Keeps :
    (e : HookEnv) (locks : List String) (s : State) → IsReady e s → Keeps e (release_all e locks s)
unfolding release_all
release_all-Keeps e [] s h = (s, refl, h)
release_all-Keeps e (lock ∷ rest) s h =
    let (s', eq, h') = release-Keeps e lock s h in rw eq (release_all-Keeps e rest s' h')

pub release_granted-Keeps : (e : HookEnv) (s : State) → IsReady e s → Keeps e (release_granted e s)
unfolding release_granted
release_granted-Keeps e s h =
    let (own, eq) = some_of_is_some (lookup e.unit s.requests) h.local in
    rw eq (release_all-Keeps e (keys own) s h)
