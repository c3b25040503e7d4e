-- ===== src/Coordinator/Handle.antt =====
-- charmhelpers/coordinator.py, `handle` as a whole, on the leader and under `Serial`.
use charm_helpers.Prelude.{
  ℕ, String, ◌≡◌, refl, ◌∙◌, List, [], ◌∷◌, true, some, arith, eq_iff, Dict, Unique,
  some_of_ne-none, some_of_is_some, eq_refl, inr,
}
use charm_helpers.Coordinator.{
  Locks, State, HookEnv, held, default_grant, grant_all, handle, clear_released, all_requests,
  waiting, names,
}
use charm_helpers.Coordinator.Grants.{Granted, unchanged, wrote, grant-Granted, held-write}
use charm_helpers.Coordinator.Exclusive.{clear_released-held, Granted-requests}
use charm_helpers.Coordinator.Total.{grant-ne-none, waiting-held}
use charm_helpers.Coordinator.Queue.{waiting-FirstBefore}
use charm_helpers.Coordinator.Progress.{
  Taken, listed, listed-all_requests, grant_all-Taken, clear_released-Unique, names-ne-nil,
}

-- Every grant has the timestamp of an outstanding request.
pub record IsCurrent (s : State) : Type 0 where
  pub asked :
      (u lock : String) (ts : ℕ) → held u lock s.grants ≡ some ts → held u lock s.requests ≡ some ts

Granted-IsCurrent :
    {lock unit : String} {s s' : State} → Granted lock unit s s' → IsCurrent s → IsCurrent s'
Granted-IsCurrent (unchanged same) h = rw same h
Granted-IsCurrent {lock} {unit} {s} (wrote ts rest free first found new) h = rw new (record {
  asked = λ v l t e. ground (
    arith,
    h.asked v l t,
    held-write unit lock v l ts s.grants,
    eq_iff unit v,
    eq_iff lock l,
    found,
  );
})

grant_all_total :
    (e : HookEnv) (todo : List (String × String)) (s : State)
    → Unique s.requests
    → IsCurrent s
    → (s' : State) × (grant_all e default_grant todo s ≡ some s')
      × IsCurrent s'
      × (s'.requests ≡ s.requests)
unfolding grant_all
grant_all_total e [] s unique h = (s, refl, h, refl)
grant_all_total e ((lock, u) ∷ rest) s unique h =
    let ((b, s1), call) = some_of_ne-none _ (grant-ne-none e default_grant lock u s unique) in
    let g = grant-Granted e lock u s s1 b call in
    let same = Granted-requests g in
    let (s', done, h', kept) = grant_all_total e rest s1 (rw same unique) (Granted-IsCurrent g h) in
    (s', rw call done, h', kept ∙ same)

first_listed :
    (lock first : String) (rest : List String) (r : Dict Locks)
    → Unique r
    → names (waiting lock [] r) ≡ first ∷ rest
    → listed lock first (all_requests r) ≡ true
first_listed lock first rest r unique e =
    let in_line = waiting-held lock first [] r unique (rw e (ground (arith, eq_refl first))) in
    let (t, asked) = some_of_is_some (held first lock r) in_line in
    listed-all_requests lock first t r asked

-- On the leader, `handle` under `Serial` raises no KeyError and leaves the requests as they are.
-- After it each grant has the timestamp of the request that it answers, so that a unit which gave a
-- lock back and asked again has lost it, and each lock that some unit asks for is held by a unit.
-- The two tables have no key twice, as Python's dicts have none.
pub handle_serves :
    (e : HookEnv) (s : State)
    → e.is_leader ≡ true
    → Unique s.grants
    → Unique s.requests
    → (s' : State) × (handle e default_grant s ≡ some s')
      × (s'.requests ≡ s.requests)
      × IsCurrent s'
      × ((u lock : String) (t : ℕ) → held u lock s.requests ≡ some t → Taken lock s'.grants)
unfolding handle
handle_serves e s leads ug ur =
    let cleared : State = record s { grants = clear_released s.requests s.grants } in
    let current : IsCurrent cleared = record {
      asked = λ v l t held_t. (clear_released-held s.requests v l t s.grants held_t).1;
    } in
    let (s', done, h, kept) = grant_all_total e (all_requests s.requests) cleared ur current in
    (
      s',
      ground arith,
      kept,
      h,
      λ u lock t asked.
          let (first, rest, in_front) =
            names-ne-nil (waiting lock [] s.requests) t
              (waiting-FirstBefore lock u t s.requests asked) in
          grant_all-Taken e lock first rest (all_requests s.requests) cleared s' leads
            (clear_released-Unique s.requests s.grants ug) ur in_front
            (inr (first_listed lock first rest s.requests ur in_front)) done,
    )
