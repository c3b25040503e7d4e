-- ===== src/Services.antt =====
-- charmhelpers/core/services/base.py: class ServiceManager, whose callbacks act on a world `W` that
-- the charm and the host make up.
pub mod Ports
mod Tests
pub mod Ready
pub mod History
use charm_helpers.Prelude.{
  String, List, [], ◌∷◌, ◌++◌, Bool, true, false, not, ◌&&◌, ◌||◌, Option, none, some, str_eq,
  if◌then◌else◌, ◌>>=◌, elem, Dict, lookup, keys, select, or_else,
}

pub data Event : Type 0 where
  data_ready data_lost start stop : Event

-- A service definition. The callbacks take the service name; `start` and `stop` may be left out,
-- and then have defaults.
pub record Service (W : Type 0) : Type 0 where
  pub required_data : List (W → Bool)
  pub on_data_ready : List (String → W → W)
  pub on_data_lost : List (String → W → W)
  pub on_start : Option (List (String → W → W))
  pub on_stop : Option (List (String → W → W))

-- What `service_restart`, `service_stop` and `manage_ports` call. The default callbacks of `start`
-- and `stop` are made of them.
pub record Host (W : Type 0) : Type 0 where
  pub available : String → W → Bool
  pub running : String → W → Bool
  pub host_restart : String → W → W
  pub host_start : String → W → W
  pub host_stop : String → W → W
  pub manage_ports : Event → String → W → W

-- The manager: its services, the ready file on disk and the set read from it, the world, and the
-- events that have been fired, in order.
pub record Manager (W : Type 0) : Type 0 where
  pub services : Dict (Service W)
  pub ready_file : Option (List String)
  pub ready : Option (List String)
  pub world : W
  pub fired : List (Event × String)

-- `set.add` and `set.discard`
pub add : String → List String → List String
add x xs = if elem x xs then xs else xs ++ x ∷ []

pub discard : String → List String → List String
discard x [] = []
discard x (y ∷ ys) = let rest = discard x ys in if str_eq x y then rest else y ∷ rest

module _ {W : Type 0} where
  -- `service_restart` and `service_stop`
  pub service_restart : Host W → String → W → W
  service_restart h name w =
      if h.available name w
      then (if h.running name w then h.host_restart name w else h.host_start name w)
      else w

  pub service_stop : Host W → String → W → W
  service_stop h name w = if h.running name w then h.host_stop name w else w

  pub call_all : List (String → W → W) → String → W → W
  call_all [] name w = w
  call_all (f ∷ fs) name w = call_all fs name (f name w)

  -- `service.get(event_name, default)`
  pub callbacks : Host W → Event → Service W → List (String → W → W)
  unfolding service_restart service_stop
  callbacks h data_ready s = s.on_data_ready
  callbacks h data_lost s = s.on_data_lost
  callbacks h start s = or_else s.on_start (service_restart h ∷ h.manage_ports start ∷ [])
  callbacks h stop s = or_else s.on_stop (h.manage_ports stop ∷ service_stop h ∷ [])

  -- `get_service`: none is its KeyError
  pub get_service : String → Manager W → Option (Service W)
  get_service name m = lookup name m.services

  -- `fire_event`
  pub fire_event : Host W → Event → String → Manager W → Option (Manager W)
  unfolding get_service callbacks call_all
  fire_event h event name m = elim (get_service name m) [
    | none ↦ none
    | some s ↦ some (record m {
      world = call_all (callbacks h event s) name m.world;
      fired = m.fired ++ (event, name) ∷ [];
    })
  ]

  abbrev pub all_of : List (W → Bool) → W → Bool
  all_of [] w = true
  all_of (p ∷ ps) w = p w && all_of ps w

  -- `is_ready`
  pub is_ready : String → Manager W → Option Bool
  unfolding get_service
  is_ready name m = elim (get_service name m) [
    | none ↦ none
    | some s ↦ some (all_of s.required_data m.world)
  ]

  -- `_load_ready_file` and `_save_ready_file`
  pub load_ready_file : Manager W → Manager W
  load_ready_file m = elim m.ready [
    | some _ ↦ m
    | none ↦ record m { ready = some (or_else m.ready_file []) }
  ]

  pub save_ready_file : Manager W → Manager W
  save_ready_file m = elim m.ready [ none ↦ m | some names ↦ record m { ready_file = some names } ]

  pub with_ready : (List String → List String) → Manager W → Manager W
  unfolding load_ready_file save_ready_file
  with_ready change m =
      let loaded = load_ready_file m in
      save_ready_file (record loaded { ready = some (change (or_else loaded.ready [])) })

  -- `save_ready` and `save_lost`
  pub save_ready : String → Manager W → Manager W
  unfolding with_ready add
  save_ready name m = with_ready (add name) m

  pub save_lost : String → Manager W → Manager W
  unfolding with_ready discard
  save_lost name m = with_ready (discard name) m

  -- `was_ready`, with the manager that has read the file
  pub was_ready : String → Manager W → Bool × Manager W
  unfolding load_ready_file
  was_ready name m = let loaded = load_ready_file m in (elem name (or_else loaded.ready []), loaded)

  -- the body of the loop of `reconfigure_services`
  pub reconfigure : Host W → String → Manager W → Option (Manager W)
  reconfigure h name m = do
    ready ← is_ready name m
    (if ready
        then (do
          m1 ← fire_event h data_ready name m
          m2 ← fire_event h start name m1
          some (save_ready name m2))
        else (do
          let known = was_ready name m
          m1 ← (if known.0 then fire_event h data_lost name known.1 else some known.1)
          m2 ← fire_event h stop name m1
          some (save_lost name m2)))

  pub reconfigure_each : Host W → List String → Manager W → Option (Manager W)
  unfolding reconfigure
  reconfigure_each h [] m = some m
  reconfigure_each h (name ∷ names) m = do m' ← reconfigure h name m; reconfigure_each h names m'

  abbrev pub or_all : List String → Manager W → List String
  or_all [] m = keys m.services
  or_all (n ∷ ns) m = n ∷ ns

  -- `reconfigure_services`
  pub reconfigure_services : Host W → List String → Manager W → Option (Manager W)
  unfolding reconfigure_each
  reconfigure_services h names m = reconfigure_each h (or_all names m) m

  pub stop_each : Host W → List String → Manager W → Option (Manager W)
  stop_each h [] m = some m
  stop_each h (name ∷ names) m = do m' ← fire_event h stop name m; stop_each h names m'

  -- `stop_services`
  pub stop_services : Host W → List String → Manager W → Option (Manager W)
  unfolding stop_each
  stop_services h names m = stop_each h (or_all names m) m
