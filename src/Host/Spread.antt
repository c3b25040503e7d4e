-- ===== src/Host/Spread.antt =====
-- charmhelpers/core/host.py, `modulo_distribution`, and the ports and waits of
-- charmhelpers/contrib/hahelpers/cluster.py.
use native.Mathlib.Nat.{zero-mul, suc-mul, mod_self, mod-eq_of_lt, mod-lt}
use charm_helpers.Prelude.{
  ℕ, zero, suc, ◌+◌, ◌-◌, ◌*◌, ◌%◌, ◌≤◌, ◌<◌, ◌≡◌, refl, List, [], ◌∷◌, Bool, true, false, not,
  ◌&&◌, ◌||◌, Option, none, some, arith, ltb, ◌==◌, if◌then◌else◌,
}

-- `modulo_distribution`, for the number of the local unit
pub modulo_distribution : ℕ → ℕ → ℕ → Bool → ℕ
modulo_distribution unit_number modulo wait non_zero_wait =
    let calculated = unit_number % modulo * wait in
    if non_zero_wait && calculated == 0 then modulo * wait else calculated

-- `or` on numbers
abbrev pub number_or : Option ℕ → ℕ → ℕ
number_or none d = d
number_or (some n) d = if n == 0 then d else n

-- The `modulo-nodes` and `known-wait` options.
pub record Config : Type 0 where
  pub modulo_nodes : Option ℕ
  pub known_wait : Option ℕ

-- `distributed_wait`: the seconds that it sleeps
pub distributed_wait : Config → Bool → ℕ → Option ℕ → Option ℕ → ℕ
unfolding modulo_distribution
distributed_wait c is_leader unit_number modulo wait =
    let m : ℕ = elim modulo [ some m ↦ m | none ↦ number_or c.modulo_nodes 3 ] in
    let w : ℕ = elim wait [ some w ↦ w | none ↦ number_or c.known_wait 30 ] in
    if is_leader then 0 else modulo_distribution unit_number m w true

-- `oldest_peer`, on the unit numbers
unfoldable pub oldest_peer : ℕ → List ℕ → Bool
oldest_peer local [] = true
oldest_peer local (p ∷ ps) = let rest = oldest_peer local ps in if ltb p local then false else rest

-- What decides the ports: the mode, the peers, the cluster and https.
pub record Deployment : Type 0 where
  pub peers : ℕ
  pub is_clustered : Bool
  pub https : Bool

abbrev pub shuffles : Deployment → Bool → Bool
shuffles d singlenode_mode = singlenode_mode || (ltb 0 d.peers || d.is_clustered)

-- `determine_apache_port` and `determine_api_port`: the steps of ten below the public port
pub apache_steps : Deployment → Bool → ℕ
apache_steps d single = if shuffles d single then 1 else 0

pub api_steps : Deployment → Bool → ℕ
api_steps d single = (if shuffles d single then 1 else 0) + (if d.https then 1 else 0)

pub determine_apache_port : ℕ → Deployment → Bool → ℕ
unfolding apache_steps
determine_apache_port public_port d single = public_port - apache_steps d single * 10

pub determine_api_port : ℕ → Deployment → Bool → ℕ
unfolding api_steps
determine_api_port public_port d single = public_port - api_steps d single * 10

abbrev pub full_round : ℕ → ℕ → ℕ
full_round modulo zero = modulo
full_round modulo (suc r) = suc r

round_steps :
    (r modulo wait : ℕ)
    → 0 < wait
    → (if r * wait == 0 then modulo * wait else r * wait) ≡ full_round modulo r * wait
round_steps zero modulo wait w = ground (arith, zero-mul wait)
round_steps (suc r) modulo wait w =
    if_false (suc r * wait) (modulo * wait) (suc r * wait) (omega (arith, suc-mul r wait, w))
  where
    if_false : (n a b : ℕ) → 0 < n → (if n == 0 then a else b) ≡ b
    if_false n a b h = ground arith

round_bounds :
    (r modulo : ℕ)
    → r < modulo
    → (0 < full_round modulo r)
      × (full_round modulo r ≤ modulo)
      × (full_round modulo r % modulo ≡ r)
round_bounds zero modulo m = (ground arith, ground arith, mod_self modulo)
round_bounds (suc r) modulo m = (ground arith, ground arith, mod-eq_of_lt m)

-- With a positive modulus and a positive wait the leader does not wait, and a follower does, by a
-- whole number of steps from one to the modulus: the remainder of its number, or a full round where
-- that is zero.
pub distributed_wait_steps :
    (c : Config) (is_leader : Bool) (unit modulo wait : ℕ)
    → 0 < modulo
    → 0 < wait
    → (k : ℕ) × (distributed_wait c is_leader unit (some modulo) (some wait) ≡ k * wait)
      × (if is_leader then k ≡ 0 else ((0 < k) × (k ≤ modulo) × (k % modulo ≡ unit % modulo)))
unfolding distributed_wait
distributed_wait_steps c true unit modulo wait m w = (0, ground arith, refl)
distributed_wait_steps c false unit modulo wait m w = (
  full_round modulo (unit % modulo),
  round_steps (unit % modulo) modulo wait w,
  round_bounds (unit % modulo) modulo (mod-lt unit m),
)

-- With room below the public port the API listens one step below apache where https is on, and on
-- apache's port where it is off; neither port is above the public one.
pub ports_in_line :
    (public_port : ℕ) (d : Deployment) (single : Bool)
    → 20 ≤ public_port
    → (determine_api_port public_port d single + (if d.https then 10 else 0)
        ≡ determine_apache_port public_port d single)
      × (determine_apache_port public_port d single ≤ public_port)
unfolding determine_api_port determine_apache_port
ports_in_line public_port d single room = bounds (shuffles d single) d.https
  where
    bounds :
        (s h : Bool)
        → ((public_port - ((if s then 1 else 0) + (if h then 1 else 0)) * 10)
              + (if h then 10 else 0)
            ≡ public_port - (if s then 1 else 0) * 10)
          × (public_port - (if s then 1 else 0) * 10 ≤ public_port)
    bounds true true = ground arith
    bounds true false = ground arith
    bounds false true = ground arith
    bounds false false = ground arith

abbrev pub any_below : ℕ → List ℕ → Bool
any_below n [] = false
any_below n (p ∷ ps) = ltb p n || any_below n ps

-- The local unit is the oldest exactly if no peer has a smaller number.
pub oldest_peer_iff : (local : ℕ) (ps : List ℕ) → oldest_peer local ps ≡ not (any_below local ps)
unfolding oldest_peer
oldest_peer_iff local [] = refl
oldest_peer_iff local (q ∷ ps) = ground (arith, oldest_peer_iff local ps)
