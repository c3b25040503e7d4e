-- ===== src/Coordinator/Grants.antt =====
-- charmhelpers/coordinator.py, `grant`: what one call does to the grants, under `Serial`.
use charm_helpers.Prelude.{
  ℕ, String, ◌≡◌, refl, ◌⊎◌, inl, inr, List, [], ◌∷◌, Bool, true, false, none, some, arith, str_eq,
  eq_iff, eq_refl, if◌then◌else◌, or_else, elem, ◌&&◌, Dict, lookup, insert, lookup-insert,
  Option-cases, Bool-cases,
}
use charm_helpers.Coordinator.{
  Locks, State, HookEnv, held, holders, waiting, names, default_grant, grant, write,
}

pub held-write :
    (unit lock u l : String) (ts : ℕ) (g : Dict Locks)
    → held u l (write unit lock ts g)
      ≡ (if str_eq unit u && str_eq lock l then some ts else held u l g)
held-write unit lock u l ts g = ground (
  arith,
  lookup-insert unit u (insert lock ts (or_else (lookup unit g) [])) g,
  lookup-insert lock l ts (or_else (lookup unit g) []),
  eq_iff unit u,
  eq_iff lock l,
)

pub holders-nil : (lock u : String) (g : Dict Locks) → holders lock g ≡ [] → held u lock g ≡ none
unfolding holders
holders-nil lock u [] h = refl
holders-nil lock u ((v, locks) ∷ g) h = ground (arith, holders-nil lock u g)

pub elem-holders :
    (lock u : String) (g : Dict Locks) → elem u (holders lock g) ≡ false → held u lock g ≡ none
unfolding holders
elem-holders lock u [] h = refl
elem-holders lock u ((v, locks) ∷ g) h =
    ground (arith, elem-holders lock u g, eq_iff v u, eq_iff u v, eq_refl u)

-- What a call of `grant` may have done: nothing, or a grant of a free lock to the first in line.
pub data Granted (lock unit : String) (s : State) (s' : State) : Type 0 where
  unchanged : s' ≡ s → Granted lock unit s s'
  wrote :
      (ts : ℕ) (rest : List String)
      → holders lock s.grants ≡ []
      → names (waiting lock [] s.requests) ≡ unit ∷ rest
      → held unit lock s.requests ≡ some ts
      → s' ≡ record s { grants = write unit lock ts s.grants }
      → Granted lock unit s s'

default_grant_inv :
    (lock unit : String) (holding queue : List String)
    → default_grant lock unit holding queue ≡ true
    → (rest : List String) × (holding ≡ []) × (queue ≡ unit ∷ rest)
unfolding default_grant
default_grant_inv lock unit [] [] h = cc
default_grant_inv lock unit [] (first ∷ rest) h = (rest, refl, ground (arith, eq_iff unit first))
default_grant_inv lock unit (x ∷ xs) queue h = cc

same_or_written :
    (e : HookEnv) (lock unit : String) (s s' : State) (b : Bool) (ts : ℕ)
    → grant e default_grant lock unit s ≡ some (b, s')
    → held unit lock s.requests ≡ some ts
    → (s' ≡ s) ⊎ (s' ≡ record s { grants = write unit lock ts s.grants })
unfolding grant
same_or_written e lock unit s s' b ts h found = ground arith

pub grant-Granted :
    (e : HookEnv) (lock unit : String) (s s' : State) (b : Bool)
    → grant e default_grant lock unit s ≡ some (b, s')
    → Granted lock unit s s'
unfolding grant
grant-Granted e lock unit s s' b h =
    elim (Bool-cases (
      default_grant lock unit (holders lock s.grants)
        (names (waiting lock (holders lock s.grants) s.requests)))) [
          | inl yields ↦
              let (rest, free, first) = default_grant_inv lock unit _ _ yields in
              elim (Option-cases (held unit lock s.requests)) [
                | inl missing ↦ unchanged (ground arith)
                | inr (ts, found) ↦ elim (same_or_written e lock unit s s' b ts h found) [
                  | inl same ↦ unchanged same
                  | inr new ↦ wrote ts rest free (rw free at first) found new
                ]
              ]
          | inr refuses ↦ unchanged (ground arith)
        ]
