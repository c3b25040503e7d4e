-- ===== src/Coordinator/Queue.antt =====
-- charmhelpers/coordinator.py: the queue of `grant`, who is first in it, and what `handle` leaves.
use charm_helpers.Prelude.{
  ℕ, ◌≤◌, String, ◌≡◌, ◌∙◌, ap, List, [], ◌∷◌, Bool, none, some, arith, str_eq, eq_iff, eq_refl,
  Dict, lookup, Unique, Option-cases, Bool-cases, inl, inr,
}
use charm_helpers.Coordinator.{
  Locks, State, HookEnv, held, waiting, names, enqueue, before, grant, default_grant,
}
use charm_helpers.Coordinator.Grants.{
  Granted, holders-nil, unchanged, wrote, grant-Granted, held-write,
}

-- The first of the queue has asked no later than `t`.
abbrev pub FirstBefore : ℕ → List (ℕ × String) → Type 0
FirstBefore t [] = ⊥
FirstBefore t ((s, u) ∷ q) = s ≤ t

enqueue-FirstBefore_self :
    (t : ℕ) (u : String) (q : List (ℕ × String)) → FirstBefore t (enqueue (t, u) q)
unfolding enqueue before
enqueue-FirstBefore_self t u [] = omega arith
enqueue-FirstBefore_self t u ((s, v) ∷ q) = ground arith

enqueue-FirstBefore :
    (t s : ℕ) (u : String) (q : List (ℕ × String))
    → FirstBefore t q
    → FirstBefore t (enqueue (s, u) q)
unfolding enqueue before
enqueue-FirstBefore t s u [] h = absurd h
enqueue-FirstBefore t s u ((r, v) ∷ q) h = ground arith

pub waiting-FirstBefore :
    (lock u : String) (t : ℕ) (r : Dict Locks)
    → held u lock r ≡ some t
    → FirstBefore t (waiting lock [] r)
unfolding waiting
waiting-FirstBefore lock u t [] h = cc
waiting-FirstBefore lock u t ((v, locks) ∷ r) h = elim (Option-cases (lookup lock locks)) [
  | inl absent ↦ rw absent (waiting-FirstBefore lock u t r (ground (arith, eq_iff v u)))
  | inr (s, asked) ↦ elim (Bool-cases (str_eq v u)) [
    | inl same ↦
        let e : s ≡ t = ground arith in
        rw (asked, e) (enqueue-FirstBefore_self t v (waiting lock [] r))
    | inr other ↦ rw asked (
        enqueue-FirstBefore t s v (waiting lock [] r)
          (waiting-FirstBefore lock u t r (ground arith)))
  ]
]

-- Every entry of the queue is the outstanding request of its unit.
abbrev Asks : String → Dict Locks → List (ℕ × String) → Type 0
Asks lock r [] = Unit
Asks lock r ((t, u) ∷ q) = (held u lock r ≡ some t) × Asks lock r q

enqueue-Asks :
    (lock : String) (r : Dict Locks) (t : ℕ) (u : String) (q : List (ℕ × String))
    → held u lock r ≡ some t
    → Asks lock r q
    → Asks lock r (enqueue (t, u) q)
unfolding enqueue
enqueue-Asks lock r t u [] h k = (h, tt)
enqueue-Asks lock r t u ((s, v) ∷ q) h k = ground (arith, enqueue-Asks lock r t u q h k.1)

Asks-cons :
    (lock v : String) (locks : Locks) (r : Dict Locks) (q : List (ℕ × String))
    → lookup v r ≡ none
    → Asks lock r q
    → Asks lock ((v, locks) ∷ r) q
Asks-cons lock v locks r [] new h = tt
Asks-cons lock v locks r ((t, u) ∷ q) new h =
    (ground (arith, eq_iff v u), Asks-cons lock v locks r q new h.1)

waiting-Asks : (lock : String) (r : Dict Locks) → Unique r → Asks lock r (waiting lock [] r)
unfolding waiting
waiting-Asks lock [] h = tt
waiting-Asks lock ((v, locks) ∷ r) h =
    let tail = Asks-cons lock v locks r (waiting lock [] r) h.0 (waiting-Asks lock r h.1) in
    elim (Option-cases (lookup lock locks)) [
      | inl absent ↦ rw absent tail
      | inr (t, asked) ↦ rw asked (
          enqueue-Asks lock ((v, locks) ∷ r) t v (waiting lock [] r) (ground (arith, eq_refl v))
            tail)
    ]

first_is_earliest :
    (lock unit v : String) (t t' : ℕ) (r : Dict Locks) (q : List (ℕ × String)) (rest : List String)
    → names q ≡ unit ∷ rest
    → Asks lock r q
    → FirstBefore t' q
    → held unit lock r ≡ some t
    → t ≤ t'
unfolding names
first_is_earliest lock unit v t t' r [] rest first asks before held_t = absurd before
first_is_earliest lock unit v t t' r ((s, u) ∷ q) rest first asks before held_t = ground arith

-- First come, first served: when a call of `grant` under `Serial` gives a unit a lock that it did
-- not hold, then no unit held the lock, and the unit's request, whose timestamp the grant
-- records, is no later than any other unit's outstanding request for the lock.
pub grant_first_come :
    (e : HookEnv) (lock unit : String) (s s' : State) (b : Bool) (t : ℕ)
    → Unique s.requests
    → grant e default_grant lock unit s ≡ some (b, s')
    → held unit lock s.grants ≡ none
    → held unit lock s'.grants ≡ some t
    → (held unit lock s.requests ≡ some t)
      × ((v : String) → held v lock s.grants ≡ none)
      × ((v : String) (t' : ℕ) → held v lock s.requests ≡ some t' → t ≤ t')
grant_first_come e lock unit s s' b t unique h without with_t =
    go (grant-Granted e lock unit s s' b h)
  where
    go :
        Granted lock unit s s'
        → (held unit lock s.requests ≡ some t)
          × ((v : String) → held v lock s.grants ≡ none)
          × ((v : String) (t' : ℕ) → held v lock s.requests ≡ some t' → t ≤ t')
    go (unchanged same) = let kept : held unit lock s.grants ≡ some t = rw same at with_t in cc
    go (wrote ts rest free first found new) =
        let e : some ts ≡ some t = ground (
          arith,
          held-write unit lock unit lock ts s.grants,
          eq_refl unit,
          eq_refl lock,
          new,
          ap (λ (x : State). held unit lock x.grants) new,
        ) in
        (
          found ∙ e,
          λ v. holders-nil lock v s.grants free,
          λ v t' asked.
              first_is_earliest lock unit v t t' s.requests (waiting lock [] s.requests) rest first
                (waiting-Asks lock s.requests unique)
                (waiting-FirstBefore lock v t' s.requests asked) (found ∙ e),
        )
