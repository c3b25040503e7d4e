-- ===== src/Coordinator/Hook/Mutex.antt =====
-- charmhelpers/coordinator.py: the whole protocol, hook after hook, under `Serial`.
use charm_helpers.Prelude.{
  String, ◌≡◌, refl, List, [], ◌∷◌, ◌++◌, Bool, true, false, Option, none, some, arith,
  if◌then◌else◌, Dict, lookup, Unique, insert-Unique, some_of_is_some,
}
use charm_helpers.Coordinator.{Locks, State, HookEnv, default_grant}
use charm_helpers.Coordinator.Exclusive.{Exclusive}
use charm_helpers.Coordinator.Safety.{
  IsReady, Keeps, handle-Keeps, acquire-Keeps, release_granted-Keeps, contains-insert_self,
}
use charm_helpers.Coordinator.Hook.{
  World, Hook, set_if, load_peer_state, load_local_state, load_state, save_state, acquire_all,
  run_hook, run_hooks,
}

load_peer_state-Unique :
    (units : List String) (peer requests : Dict Locks)
    → Unique requests
    → Unique (load_peer_state units peer requests)
unfolding load_peer_state
load_peer_state-Unique [] peer requests h = h
load_peer_state-Unique (u ∷ us) peer requests h =
    load_peer_state-Unique us peer (set_if u (lookup u peer) requests)
      (set_if-Unique (lookup u peer))
  where
    set_if-Unique : (o : Option Locks) → Unique (set_if u o requests)
    set_if-Unique none = h
    set_if-Unique (some locks) = insert-Unique u locks requests h

load_state-IsReady : (k : Hook) (w : World) → Exclusive w.leader → IsReady k.env (load_state k w)
unfolding load_state
load_state-IsReady k w h =
    let table = load_peer_state (k.related ++ k.env.unit ∷ []) w.peer [] in
    let mine = load_local_state k.env.unit w in
    let known = load_peer_state-Unique (k.related ++ k.env.unit ∷ []) w.peer [] tt in
    record {
      unique = ground (arith, known, insert-Unique k.env.unit mine table known);
      local = ground (
        arith,
        contains-insert_self k.env.unit mine table,
        contains-insert_self k.env.unit mine [],
      );
      exclusive = h;
    }

acquire_all-Keeps :
    (e : HookEnv) (locks : List String) (s : State)
    → IsReady e s
    → Keeps e (acquire_all e default_grant locks s)
unfolding acquire_all
acquire_all-Keeps e [] s h = (s, refl, h)
acquire_all-Keeps e (lock ∷ rest) s h =
    let (b, s', eq, h') = acquire-Keeps e lock s h in rw eq (acquire_all-Keeps e rest s' h')

if-Exclusive :
    (b : Bool) (g g' : Dict Locks) → Exclusive g → Exclusive g' → Exclusive (if b then g else g')
if-Exclusive true g g' h h' = h
if-Exclusive false g g' h h' = h'

if-leader-Exclusive :
    (b : Bool) (w w' : World)
    → Exclusive w.leader
    → Exclusive w'.leader
    → Exclusive (if b then w else w').leader
if-leader-Exclusive true w w' h h' = h
if-leader-Exclusive false w w' h h' = h'

save_state-Exclusive :
    (k : Hook) (s : State) (w : World)
    → IsReady k.env s
    → Exclusive w.leader
    → (w' : World) × (save_state k s w ≡ some w') × Exclusive w'.leader
unfolding save_state
save_state-Exclusive k s w ready h =
    let (own, eq) = some_of_is_some (lookup k.env.unit s.requests) ready.local in
    let chosen = if-Exclusive k.env.is_leader s.grants w.leader ready.exclusive h in
    rw eq (_, refl, if-leader-Exclusive k.joined _ _ chosen chosen)

-- Where no lock has two holders, a hook with the `Serial` policy ends without a KeyError, and
-- leaves leadership settings in which no lock has two holders.
pub run_hook-Exclusive :
    (k : Hook) (w : World)
    → Exclusive w.leader
    → (w' : World) × (run_hook default_grant k w ≡ some w') × Exclusive w'.leader
unfolding run_hook
run_hook-Exclusive k w h =
    let (s, handled, ready) = handle-Keeps k.env (load_state k w) (load_state-IsReady k w h) in
    let (s', acquired, ready') = acquire_all-Keeps k.env k.locks s ready in
    let (s'', released, ready'') = release_granted-Keeps k.env s' ready' in
    let (w', saved, h') = save_state-Exclusive k s'' w ready'' h in
    (w', rw (handled, acquired, released) saved, h')

-- From leadership settings in which no lock has two holders, any hooks of any units, leader or not,
-- on the peers relation or not, run without a KeyError under the `Serial` policy, and no lock has
-- two holders after them.
pub run_hooks-Exclusive :
    (ks : List Hook) (w : World)
    → Exclusive w.leader
    → (w' : World) × (run_hooks default_grant ks w ≡ some w') × Exclusive w'.leader
unfolding run_hooks
run_hooks-Exclusive [] w h = (w, refl, h)
run_hooks-Exclusive (k ∷ ks) w h =
    let (w', eq, h') = run_hook-Exclusive k w h in rw eq (run_hooks-Exclusive ks w' h')
