-- ===== src/Coordinator/Exclusive.antt =====
-- charmhelpers/coordinator.py: with `Serial` no lock is held by two units.
use charm_helpers.Prelude.{
  ◌>>=◌, ℕ, String, ◌≡◌, [], ◌∷◌, true, Option, some, arith, eq_iff, is_some, Dict, lookup,
}
use charm_helpers.Coordinator.{Locks, State, held, holders, write, still_wanted, clear_released}
use charm_helpers.Coordinator.Grants.{Granted, unchanged, wrote, held-write, holders-nil}

-- Two units that hold a lock are one unit.
pub record Exclusive (g : Dict Locks) : Type 0 where
  pub one :
      (lock u v : String) → is_some (held u lock g) ≡ true → is_some (held v lock g) ≡ true → u ≡ v

write-Exclusive :
    (unit lock : String) (ts : ℕ) (g : Dict Locks)
    → Exclusive g
    → holders lock g ≡ []
    → Exclusive (write unit lock ts g)
write-Exclusive unit lock ts g h free = record {
  one = λ l u v hu hv. ground (
    arith,
    held-write unit lock u l ts g,
    held-write unit lock v l ts g,
    eq_iff unit u,
    eq_iff unit v,
    eq_iff lock l,
    holders-nil lock u g free,
    holders-nil lock v g free,
    h.one l u v,
  );
}

pub Granted-Exclusive :
    {lock unit : String} {s s' : State}
    → Granted lock unit s s'
    → Exclusive s.grants
    → Exclusive s'.grants
Granted-Exclusive (unchanged same) h = rw same h
Granted-Exclusive {lock} {unit} {s} (wrote ts rest free first found new) h =
    rw new (write-Exclusive unit lock ts s.grants h free)

pub Granted-requests :
    {lock unit : String} {s s' : State} → Granted lock unit s s' → s'.requests ≡ s.requests
Granted-requests (unchanged same) = rw same
Granted-requests (wrote ts rest free first found new) = rw new

-- What `handle` keeps was held before and is what the unit still asks for.
still_wanted-lookup :
    (reqs : Option Locks) (l : String) (ts : ℕ) (g : Locks)
    → lookup l (still_wanted reqs g) ≡ some ts
    → (is_some (lookup l g) ≡ true) × ((reqs >>= lookup l) ≡ some ts)
unfolding still_wanted
still_wanted-lookup reqs l ts [] h = cc
still_wanted-lookup reqs l ts ((k, t) ∷ g) h =
    ground (arith, still_wanted-lookup reqs l ts g, eq_iff k l)

pub clear_released-held :
    (requests : Dict Locks) (u l : String) (ts : ℕ) (g : Dict Locks)
    → held u l (clear_released requests g) ≡ some ts
    → (is_some (held u l g) ≡ true) × (held u l requests ≡ some ts)
unfolding clear_released
clear_released-held requests u l ts [] h = cc
clear_released-held requests u l ts ((v, locks) ∷ g) h = ground (
  arith,
  clear_released-held requests u l ts g,
  still_wanted-lookup (lookup v requests) l ts locks,
  eq_iff v u,
)
