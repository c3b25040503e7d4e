-- ===== src/Coordinator/Total.antt =====
-- charmhelpers/coordinator.py: `grant` raises no KeyError.
use charm_helpers.Prelude.{
  ℕ, String, ◌≡◌, ◌≢◌, inl, inr, refl, List, [], ◌∷◌, true, none, arith, str_eq, eq_iff, is_some,
  elem, ◌||◌, Dict, lookup, Unique, Option-cases,
}
use charm_helpers.Coordinator.{
  Locks, State, HookEnv, Policy, held, holders, waiting, names, enqueue, grant,
}

elem-enqueue :
    (u v : String) (t : ℕ) (q : List (ℕ × String))
    → elem u (names (enqueue (t, v) q)) ≡ (str_eq u v || elem u (names q))
unfolding enqueue names
elem-enqueue u v t [] = refl
elem-enqueue u v t ((s, w) ∷ q) = ground (arith, elem-enqueue u v t q)

-- Who stands in the queue has a request.
pub waiting-held :
    (lock u : String) (holding : List String) (r : Dict Locks)
    → Unique r
    → elem u (names (waiting lock holding r)) ≡ true
    → is_some (held u lock r) ≡ true
unfolding waiting names
waiting-held lock u holding [] unique h = cc
waiting-held lock u holding ((v, locks) ∷ r) unique h =
    let ih = waiting-held lock u holding r unique.1 in
    elim (Option-cases (lookup lock locks)) [
      | inl absent ↦ ground (arith, ih, eq_iff v u)
      | inr (t, asked) ↦
          ground (arith, ih, eq_iff v u, eq_iff u v, elem-enqueue u v t (waiting lock holding r))
    ]

-- `grant` reads `requests` without a KeyError.
pub grant-ne-none :
    (e : HookEnv) (policy : Policy) (lock unit : String) (s : State)
    → Unique s.requests
    → grant e policy lock unit s ≢ none
unfolding grant
grant-ne-none e policy lock unit s unique =
    ground (arith, waiting-held lock unit (holders lock s.grants) s.requests unique)
