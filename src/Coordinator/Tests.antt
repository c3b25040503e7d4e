-- ===== src/Coordinator/Tests.antt =====
-- charmhelpers/coordinator.py: a lock that passes from one unit to another, and the theorems there.
use charm_helpers.Prelude.{ℕ, ◌≤◌, String, ◌≡◌, refl, List, [], ◌∷◌, true, false, none, some}
use charm_helpers.Coordinator.{
  State, HookEnv, held, default_grant, grant, handle, granted, request, acquire, set_default,
  grant_all,
}
use charm_helpers.Coordinator.Exclusive.{Exclusive}
use charm_helpers.Coordinator.Queue.{grant_first_come}
use charm_helpers.Coordinator.Handle.{IsCurrent, handle_serves}
use charm_helpers.Coordinator.Progress.{Taken}
use charm_helpers.Coordinator.Acquire.{acquire_answer}
use charm_helpers.Coordinator.Hook.{World, Hook, run_hooks}
use charm_helpers.Coordinator.Hook.Mutex.{run_hooks-Exclusive}

abbrev leader : HookEnv
leader = record { unit = "app/0"; is_leader = true; now = 50 }

abbrev follower : HookEnv
follower = record { unit = "app/1"; is_leader = false; now = 60 }

-- Two units ask for the restart lock; app/1 asked first, and app/0 holds a grant that it gave back.
abbrev two_ask : State
two_ask = record {
  grants = ("app/0", ("restart", 10) ∷ []) ∷ [];
  requests = ("app/0", ("restart", 40) ∷ []) ∷ ("app/1", ("restart", 20) ∷ []) ∷ [];
}

abbrev after : State
after = record {
  grants = ("app/0", []) ∷ ("app/1", ("restart", 20) ∷ []) ∷ [];
  requests = ("app/0", ("restart", 40) ∷ []) ∷ ("app/1", ("restart", 20) ∷ []) ∷ [];
}

handle-two_ask : handle leader default_grant two_ask ≡ some after
unfolding handle grant_all grant default_grant
handle-two_ask = refl

handle_serves_example :
    (s' : State) × (handle leader default_grant two_ask ≡ some s')
    × (s'.requests ≡ two_ask.requests)
    × IsCurrent s'
    × ((u lock : String) (t : ℕ) → held u lock two_ask.requests ≡ some t → Taken lock s'.grants)
handle_serves_example = handle_serves leader two_ask refl (refl, tt) (refl, (refl, tt))

abbrev cleared : State
cleared = record two_ask { grants = ("app/0", []) ∷ [] }

grant-cleared : grant leader default_grant "restart" "app/1" cleared ≡ some (true, after)
unfolding grant default_grant
grant-cleared = refl

grant_first_come_example :
    (held "app/1" "restart" cleared.requests ≡ some 20)
    × ((v : String) → held v "restart" cleared.grants ≡ none)
    × ((v : String) (t' : ℕ) → held v "restart" cleared.requests ≡ some t' → 20 ≤ t')
grant_first_come_example =
    grant_first_come leader "restart" "app/1" cleared after true 20 (refl, (refl, tt)) grant-cleared
      refl refl

abbrev idle : State
idle = record { grants = []; requests = ("app/1", []) ∷ [] }

abbrev asked : State
asked = record { grants = []; requests = ("app/1", ("restart", 60) ∷ []) ∷ ("restart", []) ∷ [] }

request-idle : request follower "restart" idle ≡ some asked
unfolding request set_default
request-idle = refl

acquire-idle : acquire follower default_grant "restart" idle ≡ some (false, asked)
unfolding acquire request set_default granted
acquire-idle = refl

acquire_answer_example : granted follower "restart" asked ≡ some false
acquire_answer_example =
    acquire_answer follower default_grant "restart" idle asked false refl tt (λ h. cc) acquire-idle

abbrev empty_world : World
empty_world = record { leader = []; peer = []; local = [] }

no_grants : Exclusive []
no_grants = record { one = λ lock u v h. cc }

-- Both units ask in their hooks, and the leader's next hook decides.
abbrev three_hooks : List Hook
three_hooks =
    record { env = leader; joined = true; related = "app/1" ∷ []; locks = "restart" ∷ [] }
    ∷ record { env = follower; joined = true; related = "app/0" ∷ []; locks = "restart" ∷ [] }
    ∷ record { env = leader; joined = true; related = "app/1" ∷ []; locks = [] }
    ∷ []

run_hooks-Exclusive_example :
    (w' : World) × (run_hooks default_grant three_hooks empty_world ≡ some w') × Exclusive w'.leader
run_hooks-Exclusive_example = run_hooks-Exclusive three_hooks empty_world no_grants
