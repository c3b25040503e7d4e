-- ===== src/Coordinator/Progress.antt =====
-- charmhelpers/coordinator.py, `handle`: no lock that is asked for is left free, and no grant
-- outlives its request.
use charm_helpers.Prelude.{
  ℕ, String, ◌≡◌, refl, sym, ◌∙◌, ap₂, some-injective, ◌⊎◌, List, [], ◌∷◌, ◌++◌, Bool, true, false,
  ◌&&◌, ◌||◌, none, some, arith, str_eq, eq_iff, eq_refl, is_some, or_else, Dict, lookup, insert,
  keys, Unique, insert-Unique, Option-cases, inl, inr, some_of_is_some,
}
use charm_helpers.Coordinator.{
  Locks, State, HookEnv, held, holders, waiting, names, grant, default_grant, grant_all,
  clear_released, all_requests, pairs_of,
}
use charm_helpers.Coordinator.Grants.{Granted, unchanged, wrote, grant-Granted, held-write}
use charm_helpers.Coordinator.Exclusive.{Granted-requests}
use charm_helpers.Coordinator.Queue.{FirstBefore}
use charm_helpers.Coordinator.Total.{waiting-held}

holders-held :
    (lock u : String) (us : List String) (g : Dict Locks)
    → Unique g
    → holders lock g ≡ u ∷ us
    → is_some (held u lock g) ≡ true
unfolding holders
holders-held lock u us [] h e = cc
holders-held lock u us ((v, locks) ∷ g) h e =
    ground (arith, holders-held lock u us g h.1, eq_iff v u, eq_refl v)

-- The pair of a lock and a unit stands in the work list of `handle`.
abbrev pub listed : String → String → List (String × String) → Bool
listed lock u [] = false
listed lock u ((l, v) ∷ rest) = (str_eq l lock && str_eq v u) || listed lock u rest

listed-append :
    (lock u : String) (xs ys : List (String × String))
    → listed lock u (xs ++ ys) ≡ (listed lock u xs || listed lock u ys)
listed-append lock u [] ys = refl
listed-append lock u ((l, v) ∷ xs) ys = ground (arith, listed-append lock u xs ys)

listed-pairs_of :
    (lock u : String) (t : ℕ) (locks : Locks)
    → lookup lock locks ≡ some t
    → listed lock u (pairs_of u (keys locks)) ≡ true
unfolding pairs_of
listed-pairs_of lock u t [] h = cc
listed-pairs_of lock u t ((l, s) ∷ locks) h =
    ground (arith, listed-pairs_of lock u t locks, eq_refl u, eq_iff l lock)

pub listed-all_requests :
    (lock u : String) (t : ℕ) (r : Dict Locks)
    → held u lock r ≡ some t
    → listed lock u (all_requests r) ≡ true
unfolding all_requests
listed-all_requests lock u t [] h = cc
listed-all_requests lock u t ((v, locks) ∷ r) h = ground (
  arith,
  listed-append lock u (pairs_of v (keys locks)) (all_requests r),
  listed-pairs_of lock u t locks,
  listed-all_requests lock u t r,
  eq_iff v u,
)

-- A lock that some unit holds.
abbrev pub Taken : String → Dict Locks → Type 0
Taken lock g = (u : String) × (is_some (held u lock g) ≡ true)

Granted-Taken :
    (lock : String) {lock' unit : String} {s s' : State}
    → Granted lock' unit s s'
    → Taken lock s.grants
    → Taken lock s'.grants
Granted-Taken lock (unchanged same) h = rw same h
Granted-Taken lock {lock'} {unit} {s} (wrote ts rest free first found new) (u, h) =
    rw new (u, ground (arith, held-write unit lock' u lock ts s.grants))

-- The call of `grant` for the first in line takes the lock, if it was free.
grant_takes :
    (e : HookEnv) (lock unit : String) (s s' : State) (b : Bool) (rest : List String)
    → e.is_leader ≡ true
    → Unique s.grants
    → Unique s.requests
    → names (waiting lock [] s.requests) ≡ unit ∷ rest
    → grant e default_grant lock unit s ≡ some (b, s')
    → Taken lock s'.grants
unfolding grant default_grant
grant_takes e lock unit s s' b rest leads ug ur first h = go (holders lock s.grants) refl
  where
    go : (us : List String) → holders lock s.grants ≡ us → Taken lock s'.grants
    go [] free =
        let in_line =
          waiting-held lock unit [] s.requests ur (rw first (ground (arith, eq_refl unit))) in
        let (t, asked) = some_of_is_some (held unit lock s.requests) in_line in
        (
          unit,
          ground (
            arith,
            h,
            free,
            first,
            asked,
            eq_refl unit,
            eq_refl lock,
            held-write unit lock unit lock t s.grants,
          ),
        )
    go (u ∷ us) taken =
        Granted-Taken lock (grant-Granted e lock unit s s' b h)
          (u, holders-held lock u us s.grants ug taken)

one_of_or : (a b : Bool) → (a || b) ≡ true → (a ≡ true) ⊎ (b ≡ true)
one_of_or true b h = inl refl
one_of_or false b h = inr h

both_of_and : (a b : Bool) → (a && b) ≡ true → (a ≡ true) × (b ≡ true)
both_of_and a b h = ground arith

grant_head-Taken :
    (e : HookEnv) (lock unit : String) (rest : List String) (todo : List (String × String))
    (l u : String) (s s' : State) (b : Bool)
    → e.is_leader ≡ true
    → Unique s.grants
    → Unique s.requests
    → names (waiting lock [] s.requests) ≡ unit ∷ rest
    → Taken lock s.grants ⊎ (listed lock unit ((l, u) ∷ todo) ≡ true)
    → grant e default_grant l u s ≡ some (b, s')
    → Taken lock s'.grants ⊎ (listed lock unit todo ≡ true)
grant_head-Taken e lock unit rest todo l u s s' b leads ug ur first (inl taken) h =
    inl (Granted-Taken lock (grant-Granted e l u s s' b h) taken)
grant_head-Taken e lock unit rest todo l u s s' b leads ug ur first (inr somewhere) h =
    elim (one_of_or (str_eq l lock && str_eq u unit) (listed lock unit todo) somewhere) [
      | inl here ↦
          let (el, eu) = both_of_and (str_eq l lock) (str_eq u unit) here in
          let call : grant e default_grant lock unit s ≡ some (b, s') =
            ap₂ (λ x y. grant e default_grant x y s) (sym ((eq_iff l lock).0 el))
              (sym ((eq_iff u unit).0 eu))
            ∙ h in
          inl (grant_takes e lock unit s s' b rest leads ug ur first call)
      | inr later ↦ inr later
    ]

pub Granted-Unique :
    {lock unit : String} {s s' : State}
    → Granted lock unit s s'
    → Unique s.grants
    → Unique s'.grants
Granted-Unique (unchanged same) h = rw same h
Granted-Unique {lock} {unit} {s} (wrote ts rest free first found new) h =
    rw new (insert-Unique unit (insert lock ts (or_else (lookup unit s.grants) [])) s.grants h)

pub grant_all-Taken :
    (e : HookEnv) (lock unit : String) (rest : List String) (todo : List (String × String))
    (s s' : State)
    → e.is_leader ≡ true
    → Unique s.grants
    → Unique s.requests
    → names (waiting lock [] s.requests) ≡ unit ∷ rest
    → Taken lock s.grants ⊎ (listed lock unit todo ≡ true)
    → grant_all e default_grant todo s ≡ some s'
    → Taken lock s'.grants
unfolding grant_all
grant_all-Taken e lock unit rest [] s s' leads ug ur first (inl taken) h =
    rw (← some-injective s s' h) taken
grant_all-Taken e lock unit rest [] s s' leads ug ur first (inr absent) h = cc
grant_all-Taken e lock unit rest ((l, u) ∷ todo) s s' leads ug ur first somewhere h =
    elim (Option-cases (grant e default_grant l u s)) [
      | inl failed ↦ let broken : none ≡ some s' = rw failed at h in cc
      | inr ((b, s1), call) ↦
          let g = grant-Granted e l u s s1 b call in
          let same = Granted-requests g in
          grant_all-Taken e lock unit rest todo s1 s' leads (Granted-Unique g ug) (rw same ur)
            (rw same first)
            (grant_head-Taken e lock unit rest todo l u s s1 b leads ug ur first somewhere call)
            (rw call at h)
    ]

clear_released-lookup :
    (requests : Dict Locks) (u : String) (g : Dict Locks)
    → lookup u g ≡ none
    → lookup u (clear_released requests g) ≡ none
unfolding clear_released
clear_released-lookup requests u [] h = refl
clear_released-lookup requests u ((v, locks) ∷ g) h =
    ground (arith, clear_released-lookup requests u g)

pub clear_released-Unique :
    (requests g : Dict Locks) → Unique g → Unique (clear_released requests g)
unfolding clear_released
clear_released-Unique requests [] h = tt
clear_released-Unique requests ((v, locks) ∷ g) h =
    (clear_released-lookup requests v g h.0, clear_released-Unique requests g h.1)

pub names-ne-nil :
    (q : List (ℕ × String)) (t : ℕ)
    → FirstBefore t q
    → (u : String) × (rest : List String) × (names q ≡ u ∷ rest)
unfolding names
names-ne-nil [] t h = absurd h
names-ne-nil ((s, u) ∷ q) t h = (u, names q, refl)
