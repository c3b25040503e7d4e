-- ===== src/Host/Tests.antt =====
-- charmhelpers/core/host.py and charmhelpers/contrib/hahelpers/cluster.py: runs, and the theorems
-- there.
use charm_helpers.Prelude.{
  ◌≡◌, refl, String, List, [], ◌∷◌, false, ◌&&◌, Option, none, some, if◌then◌else◌, elem, Dict,
}
use charm_helpers.Host.Restart.Once.{count_restarts, restart_on_change_once}
use charm_helpers.Host.Restart.{
  Options, service, restart, restarts, has_changed, checksums, changed_files, permits,
  restart_on_change,
}
use charm_helpers.Host.Spread.{Config}

abbrev plain : Options
plain = record {
  stopstart = false;
  restart_functions = [];
  can_restart_now = none;
  has_post_svc_restart = false;
  has_pre_restarts_wait = false;
}

abbrev restart_map : Dict (List String)
restart_map = ("/etc/a.conf", "web" ∷ []) ∷ ("/etc/b.conf", "db" ∷ "web" ∷ []) ∷ []

abbrev before : String → Option String
before path = some "old"

abbrev after : String → Option String
after path = some "new"

-- Both files change, and each service is restarted once.
restart_on_change_both :
    restart_on_change plain before after restart_map
    ≡ service restart "web" ∷ service restart "db" ∷ []
unfolding restart_on_change
restart_on_change_both = refl

restart_on_change_once_example :
    count_restarts "web" (restart_on_change plain before after restart_map) ≡ (
      if elem "web" (restarts (has_changed after (checksums before restart_map)) restart_map)
        && permits plain "web"
            (changed_files (has_changed after (checksums before restart_map)) "web" restart_map)
      then 1
      else 0)
restart_on_change_once_example = restart_on_change_once "web" plain before after restart_map

abbrev no_config : Config
no_config = record { modulo_nodes = none; known_wait = none }
