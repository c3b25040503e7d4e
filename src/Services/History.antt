-- ===== src/Services/History.antt =====
-- charmhelpers/core/services/base.py, `reconfigure_services`: the events of a service over a round
-- of all services, and from round to round.
use mathlib.Core.List.{append_assoc, append-nil}
use charm_helpers.Prelude.{
  String, ◌≡◌, refl, sym, subst, ◌∙◌, ap, ◌>>=◌, List, [], ◌∷◌, ◌++◌, Bool, true, false, Option,
  none, some, arith, str_eq, eq_iff, if◌then◌else◌, elem, Dict, lookup, contains, keys, All,
  some_of_is_some,
}
use charm_helpers.Services.{
  Event, data_ready, data_lost, start, stop, Service, Host, Manager, or_all, reconfigure_each,
  reconfigure_services,
}
use charm_helpers.Services.Ready.{known_ready, round_events, Round, reconfigure-Round}

-- The events of one service, read in order: `up` says whether data_ready was the last of data_ready
-- and data_lost. A data_lost is out of order unless it was.
abbrev pub phase : String → Bool → List (Event × String) → Option Bool
phase svc up [] = some up
phase svc up ((data_ready, n) ∷ es) = phase svc (if str_eq n svc then true else up) es
phase svc up ((data_lost, n) ∷ es) =
    let rest = phase svc (if str_eq n svc then false else up) es in
    if str_eq n svc then (if up then rest else none) else rest
phase svc up ((start, n) ∷ es) = phase svc up es
phase svc up ((stop, n) ∷ es) = phase svc up es

phase-append :
    (svc : String) (up : Bool) (xs ys : List (Event × String))
    → phase svc up (xs ++ ys) ≡ (phase svc up xs >>= λ u. phase svc u ys)
phase-append svc up [] ys = refl
phase-append svc up ((data_ready, n) ∷ xs) ys =
    phase-append svc (if str_eq n svc then true else up) xs ys
phase-append svc up ((data_lost, n) ∷ xs) ys =
    ground (arith, phase-append svc (if str_eq n svc then false else up) xs ys)
phase-append svc up ((start, n) ∷ xs) ys = phase-append svc up xs ys
phase-append svc up ((stop, n) ∷ xs) ys = phase-append svc up xs ys

phase-round_events :
    (svc name : String) (now was up : Bool)
    → (str_eq name svc ≡ true → was ≡ up)
    → phase svc up (round_events now was name) ≡ some (if str_eq name svc then now else up)
phase-round_events svc name now was up h = ground (arith, h)

module _ {W : Type 0} where
  -- What a run of rounds has done: it fired `events`, which are in order for every service, and left
  -- the set of ready services that they lead to.
  pub record Rounds (events : List (Event × String)) (m m' : Manager W) : Type 0 where
    pub services : m'.services ≡ m.services
    pub fired : m'.fired ≡ m.fired ++ events
    pub in_order :
        (svc : String)
        → phase svc (elem svc (known_ready m)) events ≡ some (elem svc (known_ready m'))

  abbrev pub Registered : Manager W → List String → Type 0
  Registered m names = All (λ n. contains n m.services ≡ true) names

  Rounds-cons :
      {name : String} {now : Bool} {es : List (Event × String)} {m m1 m' : Manager W}
      → Round name now m m1
      → Rounds es m1 m'
      → Rounds (round_events now (elem name (known_ready m)) name ++ es) m m'
  Rounds-cons {name} {now} {es} {m} {m1} {m'} r rs = record {
    services = rs.services ∙ r.services;
    fired =
        rs.fired
        ∙ ap (λ l. l ++ es) r.fired
        ∙ append_assoc m.fired (round_events now (elem name (known_ready m)) name) es;
    in_order = λ svc.
        phase-append svc (elem svc (known_ready m))
          (round_events now (elem name (known_ready m)) name) es
        ∙ ap (λ o. o >>= λ u. phase svc u es)
            (phase-round_events svc name now (elem name (known_ready m)) (elem svc (known_ready m))
              (λ same. ap (λ n. elem n (known_ready m)) ((eq_iff name svc).0 same)))
        ∙ ap (λ u. phase svc u es) (sym (r.known svc))
        ∙ rs.in_order svc;
  }

  reconfigure_each-Rounds :
      (h : Host W) (names : List String) (m : Manager W)
      → Registered m names
      → (m' : Manager W) × (es : List (Event × String)) × (reconfigure_each h names m ≡ some m')
        × Rounds es m m'
  unfolding reconfigure_each
  reconfigure_each-Rounds h [] m all = (
    m,
    [],
    refl,
    record { services = refl; fired = sym (append-nil m.fired); in_order = λ svc. refl },
  )
  reconfigure_each-Rounds h (name ∷ names) m all =
      let (s, found) = some_of_is_some (lookup name m.services) all.0 in
      let (m1, one, r) = reconfigure-Round h name s m found in
      let (m', es, rest, rs) =
        reconfigure_each-Rounds h names m1
          (subst (λ d. All (λ n. contains n d ≡ true) names) (sym r.services) all.1) in
      (m', _, rw one rest, Rounds-cons r rs)

  Registered-keys : (d : Dict (Service W)) → All (λ n. contains n d ≡ true) (keys d)
  Registered-keys d = go d (λ k h. h)
    where
      go :
          (tail : Dict (Service W))
          → ((k : String) → contains k tail ≡ true → contains k d ≡ true)
          → All (λ n. contains n d ≡ true) (keys tail)
      go [] inside = tt
      go ((k, s) ∷ tail) inside =
          (inside k (ground (arith, eq_iff k k)), go tail (λ j h. inside j (ground (arith, h))))

  Registered-or_all :
      (names : List String) (m : Manager W) → Registered m names → Registered m (or_all names m)
  Registered-or_all [] m h = Registered-keys m.services
  Registered-or_all (n ∷ ns) m h = h

  -- `reconfigure_services`, for registered names or with no names for all services, raises no
  -- KeyError. For each service the events that it fires are in order, from what the set of ready
  -- services said before to what it says after: data_lost is fired only where the service was ready,
  -- and the set has the service exactly where its last data_ready has no data_lost behind it.
  pub reconfigure_services-Rounds :
      (h : Host W) (names : List String) (m : Manager W)
      → Registered m names
      → (m' : Manager W) × (es : List (Event × String)) × (reconfigure_services h names m ≡ some m')
        × Rounds es m m'
  unfolding reconfigure_services
  reconfigure_services-Rounds h names m all =
      reconfigure_each-Rounds h (or_all names m) m (Registered-or_all names m all)
