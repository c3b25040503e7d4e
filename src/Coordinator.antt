-- ===== src/Coordinator.antt =====
-- charmhelpers/coordinator.py: class BaseCoordinator and class Serial. A unit's view of the locks,
-- and the methods that read and change it.
mod Grants
mod Exclusive
pub mod Hook
mod Total
mod Safety
mod Progress
pub mod Handle
pub mod Release
pub mod Acquire
mod Tests
pub mod Queue
use Prim.Native.String.{compare}
use text.Mathlib.Text.{is_le}
use charm_helpers.Prelude.{
  ℕ, String, List, [], ◌∷◌, ◌++◌, Bool, true, false, not, ◌&&◌, ◌||◌, Option, none, some, ltb, ◌==◌,
  str_eq, if◌then◌else◌, ◌>>=◌, or_else, elem, Dict, lookup, contains, insert, erase, keys,
}

-- One unit's locks with their timestamps. The text format of a timestamp has a fixed width, so its
-- text order is the order of the instants, which are numbers here.
abbrev pub Locks : Type 0
Locks = Dict ℕ

pub record State : Type 0 where
  pub grants : Dict Locks
  pub requests : Dict Locks

-- What the hook tools say during one hook: `local_unit()`, `is_leader()` and the clock.
pub record HookEnv : Type 0 where
  pub unit : String
  pub is_leader : Bool
  pub now : ℕ

-- `table[unit][lock]`, if it is there
abbrev pub held : String → String → Dict Locks → Option ℕ
held unit lock table = elim (lookup unit table) [ none ↦ none | some locks ↦ lookup lock locks ]

abbrev pub same_time : Option ℕ → ℕ → Bool
same_time none t = false
same_time (some s) t = s == t

-- `granted`: none is the KeyError of a unit with no entry in `requests`
pub granted : HookEnv → String → State → Option Bool
granted e lock s = do
  own ← lookup e.unit s.requests
  some
      (elim (lookup lock own) [ none ↦ false | some ts ↦ same_time (held e.unit lock s.grants) ts ])

-- `requested`
pub requested : HookEnv → String → State → Option Bool
requested e lock s = do own ← lookup e.unit s.requests; some (contains lock own)

-- the units that hold the lock, in `grant`
pub holders : String → Dict Locks → List String
holders lock [] = []
holders lock ((u, locks) ∷ g) =
    let rest = holders lock g in if contains lock locks then u ∷ rest else rest

-- the order of Python's tuples `(ts, u)`
pub before : ℕ × String → ℕ × String → Bool
before (s, u) (t, v) = ltb s t || (s == t && is_le (compare u v))

pub enqueue : ℕ × String → List (ℕ × String) → List (ℕ × String)
enqueue x [] = x ∷ []
enqueue x (y ∷ ys) = let rest = enqueue x ys in if before x y then x ∷ y ∷ ys else y ∷ rest

-- the requests of the units that do not hold the lock, sorted by time
pub waiting : String → List String → Dict Locks → List (ℕ × String)
unfolding enqueue before
waiting lock holding [] = []
waiting lock holding ((u, locks) ∷ r) =
    let rest = waiting lock holding r in
    if elem u holding
    then rest
    else elim (lookup lock locks) [ none ↦ rest | some ts ↦ enqueue (ts, u) rest ]

pub names : List (ℕ × String) → List String
names [] = []
names ((_, u) ∷ q) = u ∷ names q

-- `grant_$lock` or `default_grant`: the lock, the unit, the holders and the queue
abbrev pub Policy : Type 0
Policy = String → String → List String → List String → Bool

-- `Serial.default_grant`
pub default_grant : Policy
default_grant lock unit [] (first ∷ queue) = str_eq unit first
default_grant lock unit holding queue = false

-- `self.grants.setdefault(unit, {})[lock] = ts`
abbrev pub write : String → String → ℕ → Dict Locks → Dict Locks
write unit lock ts table = insert unit (insert lock ts (or_else (lookup unit table) [])) table

-- `grant`: the answer and the state, or none for a KeyError
pub grant : HookEnv → Policy → String → String → State → Option (Bool × State)
unfolding holders waiting names
grant e policy lock unit s =
    if not e.is_leader
    then some (false, s)
    else let holding = holders lock s.grants in
      if elem unit holding
      then some (true, s)
      else let queue = names (waiting lock holding s.requests) in
        if not (elem unit queue)
        then some (false, s)
        else if policy lock unit holding queue
        then (do
          ts ← held unit lock s.requests
          some (true, record s { grants = write unit lock ts s.grants }))
        else some (false, s)

-- `self.requests.setdefault(lock, {})`, keyed by the lock as the source has it
pub set_default : String → Dict Locks → Dict Locks
set_default key table = if contains key table then table else insert key [] table

-- the first half of `acquire`: a unit with no outstanding request for the lock makes one
pub request : HookEnv → String → State → Option State
request e lock s = do
  own ← lookup e.unit s.requests
  some (elim (lookup lock own) [
    | some ts ↦ s
    | none ↦ record s { requests = write e.unit lock e.now (set_default lock s.requests) }
  ])

-- `acquire`
pub acquire : HookEnv → Policy → String → State → Option (Bool × State)
acquire e policy lock s = do
  s' ← request e lock s
  mine ← granted e lock s'
  (if mine
      then some (true, s')
      else if e.is_leader
      then grant e policy lock e.unit s'
      else some (false, s'))

-- the grants of one unit that its requests still name, and those that are released
pub still_wanted : Option Locks → Locks → Locks
still_wanted reqs [] = []
still_wanted reqs ((lock, ts) ∷ g) =
    let rest = still_wanted reqs g in
    if same_time (reqs >>= lookup lock) ts then (lock, ts) ∷ rest else rest

-- the first loop of `handle`
pub clear_released : Dict Locks → Dict Locks → Dict Locks
unfolding still_wanted
clear_released requests [] = []
clear_released requests ((u, locks) ∷ g) =
    (u, still_wanted (lookup u requests) locks) ∷ clear_released requests g

pub pairs_of : String → List String → List (String × String)
pairs_of u [] = []
pairs_of u (lock ∷ ls) = (lock, u) ∷ pairs_of u ls

-- the order in which the second loop of `handle` calls `grant`
pub all_requests : Dict Locks → List (String × String)
unfolding pairs_of
all_requests [] = []
all_requests ((u, locks) ∷ r) = pairs_of u (keys locks) ++ all_requests r

pub grant_all : HookEnv → Policy → List (String × String) → State → Option State
grant_all e policy [] s = some s
grant_all e policy ((lock, u) ∷ rest) s = do
  (_, s') ← grant e policy lock u s
  grant_all e policy rest s'

-- `handle`
pub handle : HookEnv → Policy → State → Option State
unfolding clear_released all_requests
handle e policy s =
    if not e.is_leader
    then some s
    else let cleared = record s { grants = clear_released s.requests s.grants } in
      grant_all e policy (all_requests s.requests) cleared

-- one round of the loop of `_release_granted`
pub release : HookEnv → String → State → Option State
unfolding granted
release e lock s = do
  mine ← granted e lock s
  own ← lookup e.unit s.requests
  some (if mine then record s { requests = insert e.unit (erase lock own) s.requests } else s)

pub release_all : HookEnv → List String → State → Option State
release_all e [] s = some s
release_all e (lock ∷ rest) s = do s' ← release e lock s; release_all e rest s'

-- `_release_granted`
pub release_granted : HookEnv → State → Option State
unfolding release_all
release_granted e s = do own ← lookup e.unit s.requests; release_all e (keys own) s
