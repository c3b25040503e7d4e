-- ===== src/Services/Ready.antt =====
-- charmhelpers/core/services/base.py: the ready file, and which events a service sees.
use mathlib.Core.List.{append_assoc}
use charm_helpers.Prelude.{
  String, ◌≡◌, sym, refl, ◌∙◌, ap, List, [], ◌∷◌, ◌++◌, Bool, true, false, not, ◌&&◌, ◌||◌, some,
  arith, str_eq, eq_iff, eq_refl, if◌then◌else◌, elem, lookup, or_else, elem-append, Bool-cases,
  inl, inr,
}
use charm_helpers.Services.{
  Event, data_ready, data_lost, start, stop, Service, Host, Manager, add, discard, fire_event,
  is_ready, all_of, load_ready_file, save_ready_file, with_ready, save_ready, save_lost, was_ready,
  reconfigure, callbacks, call_all,
}

elem-add : (j x : String) (xs : List String) → elem j (add x xs) ≡ (str_eq x j || elem j xs)
unfolding add
elem-add j x xs = ground (arith, elem-append j xs (x ∷ []), eq_iff x j, eq_iff j x, eq_refl x)

elem-discard :
    (j x : String) (xs : List String) → elem j (discard x xs) ≡ (not (str_eq x j) && elem j xs)
unfolding discard
elem-discard j x [] = ground arith
elem-discard j x (y ∷ ys) = ground (arith, elem-discard j x ys, eq_iff x j, eq_iff x y, eq_iff j y)

-- The events that one round fires for a service, by whether it is and was ready.
abbrev pub round_events : Bool → Bool → String → List (Event × String)
round_events true was name = (data_ready, name) ∷ (start, name) ∷ []
round_events false true name = (data_lost, name) ∷ (stop, name) ∷ []
round_events false false name = (stop, name) ∷ []

module _ {W : Type 0} where
  -- The services that the manager takes to be ready: the set that it has read, or else the file.
  abbrev pub known_ready : Manager W → List String
  known_ready m = or_else m.ready (or_else m.ready_file [])

  record Saved (change : List String → List String) (m m' : Manager W) : Type 0 where
    services : m'.services ≡ m.services
    fired : m'.fired ≡ m.fired
    ready_file : m'.ready_file ≡ some (change (known_ready m))
    known : known_ready m' ≡ change (known_ready m)

  with_ready-Saved :
      (change : List String → List String) (m : Manager W) → Saved change m (with_ready change m)
  unfolding with_ready load_ready_file save_ready_file
  with_ready-Saved change m = ground arith

  -- a registered service with the event fired on it
  abbrev after : Host W → Event → Service W → String → Manager W → Manager W
  after h event s name m = record m {
    world = call_all (callbacks h event s) name m.world;
    fired = m.fired ++ (event, name) ∷ [];
  }

  fire_event_lem :
      (h : Host W) (event : Event) (name : String) (s : Service W) (m : Manager W)
      → lookup name m.services ≡ some s
      → fire_event h event name m ≡ some (after h event s name m)
  unfolding fire_event
  fire_event_lem h event name s m found = ground arith

  is_ready_lem :
      (name : String) (s : Service W) (m : Manager W)
      → lookup name m.services ≡ some s
      → is_ready name m ≡ some (all_of s.required_data m.world)
  unfolding is_ready
  is_ready_lem name s m found = ground arith

  save_ready-Saved : (name : String) (m : Manager W) → Saved (add name) m (save_ready name m)
  unfolding save_ready
  save_ready-Saved name m = with_ready-Saved (add name) m

  save_lost-Saved : (name : String) (m : Manager W) → Saved (discard name) m (save_lost name m)
  unfolding save_lost
  save_lost-Saved name m = with_ready-Saved (discard name) m

  pub record Round (name : String) (now : Bool) (m m' : Manager W) : Type 0 where
    pub services : m'.services ≡ m.services
    pub fired : m'.fired ≡ m.fired ++ round_events now (elem name (known_ready m)) name
    pub saved : m'.ready_file ≡ some (known_ready m')
    pub known :
        (j : String)
        → elem j (known_ready m') ≡ (if str_eq name j then now else elem j (known_ready m))

  -- What a round has done when its events have been fired.
  record Fired (events : List (Event × String)) (m m' : Manager W) : Type 0 where
    services : m'.services ≡ m.services
    fired : m'.fired ≡ m.fired ++ events
    known : known_ready m' ≡ known_ready m

  Round-of_ready :
      (name : String) (m m1 m' : Manager W)
      → Fired (round_events true (elem name (known_ready m)) name) m m1
      → Saved (add name) m1 m'
      → Round name true m m'
  Round-of_ready name m m1 m' f k = record {
    services = k.services ∙ f.services;
    fired = k.fired ∙ f.fired;
    saved = k.ready_file ∙ ap some (sym k.known);
    known = λ j.
        ap (elem j) (k.known ∙ ap (add name) f.known)
        ∙ elem-add j name (known_ready m)
        ∙ ground arith;
  }

  Round-of_lost :
      (name : String) (m m1 m' : Manager W)
      → Fired (round_events false (elem name (known_ready m)) name) m m1
      → Saved (discard name) m1 m'
      → Round name false m m'
  Round-of_lost name m m1 m' f k = record {
    services = k.services ∙ f.services;
    fired = k.fired ∙ f.fired;
    saved = k.ready_file ∙ ap some (sym k.known);
    known = λ j.
        ap (elem j) (k.known ∙ ap (discard name) f.known)
        ∙ elem-discard j name (known_ready m)
        ∙ ground arith;
  }

  -- the manager that has read the ready file
  loaded : Manager W → Manager W
  unfolding load_ready_file
  loaded m = load_ready_file m

  was_ready_lem :
      (name : String) (m : Manager W) → was_ready name m ≡ (elem name (known_ready m), loaded m)
  unfolding was_ready loaded
  was_ready_lem name m = ground arith

  loaded_lem :
      (m : Manager W)
      → ((loaded m).services ≡ m.services)
        × ((loaded m).fired ≡ m.fired)
        × (known_ready (loaded m) ≡ known_ready m)
  unfolding loaded
  loaded_lem m = ground arith

  -- One round of `reconfigure_services` for a registered service raises no KeyError. A service with
  -- all its required data fires data_ready and then start, and is in the ready file afterwards; any
  -- other fires data_lost, only if it was in the ready set, and then stop, and is not in the file.
  -- What the set says of the other services stays, and the services stay registered.
  pub reconfigure-Round :
      (h : Host W) (name : String) (s : Service W) (m : Manager W)
      → lookup name m.services ≡ some s
      → (m' : Manager W) × (reconfigure h name m ≡ some m')
        × Round name (all_of s.required_data m.world) m m'
  unfolding reconfigure
  reconfigure-Round h name s m found = elim (Bool-cases (all_of s.required_data m.world)) [
    | inl now ↦
        let m1 = after h data_ready s name m in
        let m2 = after h start s name m1 in
        let k = save_ready-Saved name m2 in
        (
          save_ready name m2,
          ground (
            arith,
            is_ready_lem name s m found,
            fire_event_lem h data_ready name s m found,
            fire_event_lem h start name s m1 found,
          ),
          rw now (
              Round-of_ready name m m2 (save_ready name m2)
                (record {
                  services = refl;
                  fired = append_assoc m.fired ((data_ready, name) ∷ []) ((start, name) ∷ []);
                  known = refl;
                })
                k),
        )
    | inr never ↦
        let (services, fired, known) = loaded_lem m in
        let there : lookup name (loaded m).services ≡ some s = rw services found in
        elim (Bool-cases (elem name (known_ready m))) [
          | inl was ↦
              let m1 = after h data_lost s name (loaded m) in
              let m2 = after h stop s name m1 in
              (
                save_lost name m2,
                ground (
                  arith,
                  is_ready_lem name s m found,
                  was_ready_lem name m,
                  fire_event_lem h data_lost name s (loaded m) there,
                  fire_event_lem h stop name s m1 there,
                ),
                rw never (
                    Round-of_lost name m m2 (save_lost name m2)
                      (record {
                        services = services;
                        fired = rw was (
                            append_assoc (loaded m).fired ((data_lost, name) ∷ [])
                              ((stop, name) ∷ [])
                            ∙ ap (λ l. l ++ (data_lost, name) ∷ (stop, name) ∷ []) fired);
                        known = known;
                      })
                      (save_lost-Saved name m2)),
              )
          | inr new ↦
              let m1 = after h stop s name (loaded m) in
              (
                save_lost name m1,
                ground (
                  arith,
                  is_ready_lem name s m found,
                  was_ready_lem name m,
                  fire_event_lem h stop name s (loaded m) there,
                ),
                rw never (
                    Round-of_lost name m m1 (save_lost name m1)
                      (record {
                        services = services;
                        fired = rw new (ap (λ l. l ++ (stop, name) ∷ []) fired);
                        known = known;
                      })
                      (save_lost-Saved name m1)),
              )
        ]
  ]
