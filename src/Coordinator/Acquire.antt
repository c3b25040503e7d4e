-- ===== src/Coordinator/Acquire.antt =====
-- charmhelpers/coordinator.py, `acquire`: the answer is what `granted` says afterwards.
use charm_helpers.Prelude.{
  ℕ, String, ◌≡◌, refl, sym, ap, ◌∙◌, ◌⊎◌, [], ◌∷◌, Bool, true, false, ◌&&◌, some, some-injective,
  arith, str_eq, eq_iff, eq_refl, is_some, elem, Dict, contains, Unique, Option-cases, Bool-cases,
  inl, inr,
}
use charm_helpers.Coordinator.{
  Locks, State, HookEnv, Policy, held, granted, request, acquire, grant, write, holders,
}
use charm_helpers.Coordinator.Grants.{held-write}
use charm_helpers.Coordinator.Handle.{IsCurrent}
use charm_helpers.Coordinator.Release.{is_mine, granted_lem, request_effect}

elem-holders_iff :
    (lock u : String) (g : Dict Locks)
    → Unique g
    → elem u (holders lock g) ≡ is_some (held u lock g)
unfolding holders
elem-holders_iff lock u [] h = refl
elem-holders_iff lock u ((v, locks) ∷ g) h =
    ground (arith, elem-holders_iff lock u g h.1, eq_iff v u, eq_iff u v)

abbrev Outcome : String → String → State → State → Bool → ℕ → Type 0
Outcome lock unit s s' b ts =
    ((s' ≡ s) × (b ≡ elem unit (holders lock s.grants)))
    ⊎ ((s' ≡ record s { grants = write unit lock ts s.grants })
        × (b ≡ true)
        × (held unit lock s.requests ≡ some ts))

grant_outcome :
    (e : HookEnv) (policy : Policy) (lock unit : String) (s s' : State) (b : Bool)
    → e.is_leader ≡ true
    → grant e policy lock unit s ≡ some (b, s')
    → (ts : ℕ) × Outcome lock unit s s' b ts
unfolding grant
grant_outcome e policy lock unit s s' b leads h = elim (Option-cases (held unit lock s.requests)) [
  | inl missing ↦ (0, ground arith)
  | inr (ts, asked) ↦ (ts, ground arith)
]

-- A call of `grant` on the leader answers whether the unit holds the lock afterwards, with any
-- policy, and touches no other grant and no request.
pub grant_answer :
    (e : HookEnv) (policy : Policy) (lock unit : String) (s s' : State) (b : Bool)
    → e.is_leader ≡ true
    → Unique s.grants
    → grant e policy lock unit s ≡ some (b, s')
    → (is_some (held unit lock s'.grants) ≡ b)
      × (s'.requests ≡ s.requests)
      × ((v k : String)
          → (str_eq unit v && str_eq lock k) ≡ false
          → held v k s'.grants ≡ held v k s.grants)
unfolding grant
grant_answer e policy lock unit s s' b leads ug h =
    let (ts, outcome) = grant_outcome e policy lock unit s s' b leads h in
    elim outcome [
      | inl (same, answer) ↦ (
        ap (λ x. is_some (held unit lock x.grants)) same
            ∙ sym (elem-holders_iff lock unit s.grants ug)
            ∙ sym answer,
        ap (λ x. x.requests) same,
        λ v k _. ap (λ x. held v k x.grants) same,
      )
      | inr (new, answer, _) ↦ (
        ap (λ x. is_some (held unit lock x.grants)) new
            ∙ ground (
              arith,
              held-write unit lock unit lock ts s.grants,
              eq_refl unit,
              eq_refl lock,
              answer,
            ),
        ap (λ x. x.requests) new,
        λ v k other.
            ap (λ x. held v k x.grants) new
            ∙ ground (arith, held-write unit lock v k ts s.grants, other),
      )
    ]

request-IsCurrent :
    (e : HookEnv) (lock : String) (s s' : State)
    → contains e.unit s.requests ≡ true
    → request e lock s ≡ some s'
    → IsCurrent s
    → IsCurrent s'
request-IsCurrent e lock s s' known h current =
    let (s1, call, same, effect) = request_effect e lock s known in
    let e1 : s1 ≡ s' = some-injective s1 s' (sym call ∙ h) in
    rw (← e1) (record {
      asked = λ u l ts held_ts.
          ground (
            arith,
            current.asked u l ts,
            effect u l,
            same,
            ap (λ (g : Dict Locks). held u l g) same,
          );
    })

leader_answer :
    (e : HookEnv) (policy : Policy) (lock : String) (s s' : State) (b : Bool)
    → contains e.unit s.requests ≡ true
    → Unique s.grants
    → IsCurrent s
    → is_mine e lock s ≡ false
    → e.is_leader ≡ true
    → grant e policy lock e.unit s ≡ some (b, s')
    → granted e lock s' ≡ some b
leader_answer e policy lock s s' b here ug current queued leads h =
    let (ts, outcome) = grant_outcome e policy lock e.unit s s' b leads h in
    elim outcome [
      | inl (same, answer) ↦
          rw
            (
              same,
              granted_lem e lock s here,
              queued,
              answer,
              elem-holders_iff lock e.unit s.grants ug,
            )
            (elim (Option-cases (held e.unit lock s.grants)) [
              | inl free ↦ rw free refl
              | inr (t, mine) ↦ ground (arith, current.asked e.unit lock t mine, mine, queued)
            ])
      | inr (new, answer, asked) ↦
          rw (new, answer)
            (granted_lem e lock (record s { grants = write e.unit lock ts s.grants }) here
              ∙ ground (
                arith,
                held-write e.unit lock e.unit lock ts s.grants,
                eq_refl e.unit,
                eq_refl lock,
                asked,
              ))
    ]

-- The answer of `acquire` is what `granted` says in the state that it leaves, with any policy: True
-- when the leader has granted the outstanding request, and False else. On the leader this is stated
-- for grants that all answer outstanding requests, as `handle` leaves them.
pub acquire_answer :
    (e : HookEnv) (policy : Policy) (lock : String) (s s' : State) (b : Bool)
    → contains e.unit s.requests ≡ true
    → Unique s.grants
    → (e.is_leader ≡ true → IsCurrent s)
    → acquire e policy lock s ≡ some (b, s')
    → granted e lock s' ≡ some b
unfolding acquire
acquire_answer e policy lock s s' b known ug current h =
    let (s1, call, same, effect) = request_effect e lock s known in
    let here : contains e.unit s1.requests ≡ true =
      ground (arith, effect e.unit lock, eq_refl e.unit, eq_refl lock) in
    elim (Bool-cases (is_mine e lock s1)) [
      | inl mine ↦ ground (arith, call, granted_lem e lock s1 here)
      | inr queued ↦ elim (Bool-cases e.is_leader) [
        | inl leads ↦
            leader_answer e policy lock s1 s' b here (rw same ug)
              (request-IsCurrent e lock s s1 known call (current leads)) queued leads
              (ground (arith, call, granted_lem e lock s1 here))
        | inr follows ↦ ground (arith, call, granted_lem e lock s1 here)
      ]
    ]
