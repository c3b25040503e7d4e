-- ===== src/Coordinator/Hook.antt =====
-- charmhelpers/coordinator.py: `initialize`, the state that outlives a hook, and one hook from its
-- first callback to its last.
pub mod Mutex
use charm_helpers.Prelude.{
  ◌>>=◌, String, List, [], ◌∷◌, ◌++◌, Bool, true, false, Option, none, some, if◌then◌else◌, or_else,
  contains, Dict, lookup, insert,
}
use charm_helpers.Coordinator.{Locks, State, HookEnv, Policy, acquire, handle, release_granted}

-- The leadership settings, what each unit has published on the peers relation, and the local files.
pub record World : Type 0 where
  pub leader : Dict Locks
  pub peer : Dict Locks
  pub local : Dict Locks

-- One hook: its tools, whether the peers relation is there, the related units in the order in which
-- Python's set yields them, and the locks that its body acquires.
pub record Hook : Type 0 where
  pub env : HookEnv
  pub joined : Bool
  pub related : List String
  pub locks : List String

abbrev set_if : String → Option Locks → Dict Locks → Dict Locks
set_if unit none d = d
set_if unit (some locks) d = insert unit locks d

-- `_load_peer_state`
pub load_peer_state : List String → Dict Locks → Dict Locks → Dict Locks
load_peer_state [] peer requests = requests
load_peer_state (u ∷ us) peer requests = load_peer_state us peer (set_if u (lookup u peer) requests)

-- `_load_local_state`
pub load_local_state : String → World → Locks
load_local_state unit w = or_else (lookup unit w.local) []

-- `_load_state`
pub load_state : Hook → World → State
unfolding load_peer_state load_local_state
load_state k w = record {
  grants = w.leader;
  requests =
      let unit = k.env.unit in
      let mine = load_local_state unit w in
      let table = load_peer_state (k.related ++ unit ∷ []) w.peer [] in
      if k.joined
      then (if contains unit table then table else insert unit mine table)
      else insert unit mine [];
}

-- `_save_state`
pub save_state : Hook → State → World → Option World
save_state k s w = do
  let w' = record w { leader = if k.env.is_leader then s.grants else w.leader }
  own ← lookup k.env.unit s.requests
  some (
      if k.joined
      then record w' { peer = insert k.env.unit own w.peer }
      else record w' { local = insert k.env.unit own w.local })

-- The calls of `acquire` in the body of a hook. The answers are the body's own affair.
pub acquire_all : HookEnv → Policy → List String → State → Option State
acquire_all e policy [] s = some s
acquire_all e policy (lock ∷ rest) s = do
  (_, s') ← acquire e policy lock s
  acquire_all e policy rest s'

-- `initialize` and `handle` at the start, then the body, and at the exit `_release_granted` before
-- `_save_state`: the callbacks of `atexit` run in reverse.
pub run_hook : Policy → Hook → World → Option World
unfolding acquire_all
run_hook policy k w = do
  s ← handle k.env policy (load_state k w)
  s' ← acquire_all k.env policy k.locks s
  s'' ← release_granted k.env s'
  save_state k s'' w

pub run_hooks : Policy → List Hook → World → Option World
run_hooks policy [] w = some w
run_hooks policy (k ∷ ks) w = do w' ← run_hook policy k w; run_hooks policy ks w'
