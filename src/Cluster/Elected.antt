-- ===== src/Cluster/Elected.antt =====
-- charmhelpers/contrib/hahelpers/cluster.py: without leadership of Juju and without a cluster, the units
-- agree on their leader.
use mathlib.Core.List.{append-nil}
use charm_helpers.Prelude.{
  ℕ, ◌≤◌, ◌≡◌, refl, ◌∙◌, List, [], ◌∷◌, Bool, true, false, not, ◌&&◌, ◌||◌, none, any,
  if◌then◌else◌, select, ltb, ◌==◌, arith,
}
use charm_helpers.Contexts.{is_nil}
use charm_helpers.Host.Spread.{oldest_peer}
use charm_helpers.Cluster.{View, is_clustered, join_units, peer_units, is_elected_leader}

-- a unit that sees all others as its peers, in one relation
abbrev pub view_of : List ℕ → ℕ → View
view_of units n = record {
  number = n;
  leadership = none;
  ha = [];
  is_crm_leader = false;
  peers = select (λ p. not (p == n)) units ∷ [];
}

-- the smallest number, from a first one on
abbrev pub smallest : ℕ → List ℕ → ℕ
smallest n [] = n
smallest n (m ∷ units) = let rest = smallest n units in if ltb m rest then m else rest

-- a unit is not younger than itself
oldest_peer-select :
    (n : ℕ) (units : List ℕ)
    → oldest_peer n (select (λ p. not (p == n)) units) ≡ oldest_peer n units
unfolding oldest_peer
oldest_peer-select n [] = refl
oldest_peer-select n (m ∷ units) = ground (arith, oldest_peer-select n units)

oldest_peer-smallest :
    (n m : ℕ) (units : List ℕ)
    → (oldest_peer n units && not (ltb m n)) ≡ not (ltb (smallest m units) n)
unfolding oldest_peer
oldest_peer-smallest n m [] = refl
oldest_peer-smallest n m (k ∷ units) = ground (arith, oldest_peer-smallest n m units)

elected_eq : (units : List ℕ) (n : ℕ) → is_elected_leader (view_of units n) ≡ oldest_peer n units
unfolding is_elected_leader is_clustered peer_units join_units oldest_peer
elected_eq units n =
    rw (append-nil (select (λ p. not (p == n)) units)) (by_peers _ ∙ oldest_peer-select n units)
  where
    by_peers : (peers : List ℕ) → (is_nil peers || oldest_peer n peers) ≡ oldest_peer n peers
    by_peers [] = refl
    by_peers (p ∷ peers) = refl

abbrev pub has : ℕ → List ℕ → Bool
has n units = any (λ u. u == n) units

smallest_below : (m : ℕ) (units : List ℕ) (n : ℕ) → has n (m ∷ units) ≡ true → smallest m units ≤ n
smallest_below m [] n h = ground arith
smallest_below m (k ∷ units) n h = ground (arith, smallest_below m units n)

smallest_there : (m : ℕ) (units : List ℕ) → has (smallest m units) (m ∷ units) ≡ true
smallest_there m [] = ground arith
smallest_there m (k ∷ units) = ground (arith, smallest_there m units)

-- Where Juju has no leadership and there is no cluster, of units that all see each other exactly one
-- takes itself for the leader: the one with the smallest number, which is there.
pub is_elected_leader_lem :
    (m : ℕ) (units : List ℕ)
    → (has (smallest m units) (m ∷ units) ≡ true)
      × ((n : ℕ)
          → has n (m ∷ units) ≡ true
          → is_elected_leader (view_of (m ∷ units) n) ≡ (n == smallest m units))
unfolding oldest_peer
is_elected_leader_lem m units = (
  smallest_there m units,
  λ n h.
      elected_eq (m ∷ units) n
      ∙ ground (arith, oldest_peer-smallest n m units, smallest_below m units n h),
)
