-- ===== src/Services/Tests.antt =====
-- charmhelpers/core/services/base.py: a manager of one service, and the theorems there.
use charm_helpers.Prelude.{◌≡◌, refl, String, List, [], ◌∷◌, Bool, true, false, none, some}
use charm_helpers.Services.{
  Event, stop, data_lost, Service, Host, Manager, is_ready, was_ready, fire_event, save_lost,
  reconfigure_services,
}
use charm_helpers.Services.History.{Rounds, reconfigure_services-Rounds}

-- a world that says whether the database is there
abbrev web : Service Bool
web = record {
  required_data = (λ w. w) ∷ [];
  on_data_ready = [];
  on_data_lost = [];
  on_start = some [];
  on_stop = some [];
}

abbrev host : Host Bool
host = record {
  available = λ s w. true;
  running = λ s w. true;
  host_restart = λ s w. w;
  host_start = λ s w. w;
  host_stop = λ s w. w;
  manage_ports = λ e s w. w;
}

-- the service was ready before, and its data is lost
abbrev manager : Manager Bool
manager = record {
  services = ("web", web) ∷ [];
  ready_file = some ("web" ∷ []);
  ready = none;
  world = false;
  fired = [];
}

abbrev stopped : Manager Bool
stopped = record {
  services = ("web", web) ∷ [];
  ready_file = some [];
  ready = some [];
  world = false;
  fired = (data_lost, "web") ∷ (stop, "web") ∷ [];
}

reconfigure_services-manager : reconfigure_services host [] manager ≡ some stopped
unfolding reconfigure_services is_ready was_ready fire_event save_lost
reconfigure_services-manager = refl

reconfigure_services-Rounds_example :
    (m' : Manager Bool) × (es : List (Event × String)) × (reconfigure_services host [] manager
      ≡ some m')
    × Rounds es manager m'
reconfigure_services-Rounds_example = reconfigure_services-Rounds host [] manager tt
