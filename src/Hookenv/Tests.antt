-- ===== src/Hookenv/Tests.antt =====
-- charmhelpers/core/hookenv.py: hooks that run, and the theorems there.
use charm_helpers.Prelude.{
  ◌≡◌, refl, [], ◌∷◌, ◌++◌, String, str_eq, true, not, none, some, if◌then◌else◌, Dict, contains,
  same_text,
}
use charm_helpers.Hookenv.Config.{Config, Values, get, init, save, previous, changed, init-save}
use charm_helpers.Hookenv.Execute.{
  Body, callback, hook, Env, exits, raises, returns, execute, manage,
}
use charm_helpers.Hookenv.Execute.Order.{full_log, full_end, execute_log}

abbrev config : Config
config = record {
  dict = ("foo", some "bar") ∷ ("mykey", some "myval") ∷ [];
  prev_dict = none;
  implicit_save = true;
}

abbrev juju : Values
juju = ("foo", some "baz") ∷ []

changed_foo : changed "foo" (init (save config) juju) ≡ true
unfolding changed init save
changed_foo = refl

init-save_example :
    (previous "foo" (init (save config) juju) ≡ get "foo" config.dict)
    × (get "foo" (init (save config) juju).dict
        ≡ (if contains "foo" juju then get "foo" juju else get "foo" config.dict))
    × (changed "foo" (init (save config) juju)
        ≡ not (same_text (get "foo" config.dict) (get "foo" (init (save config) juju).dict)))
init-save_example = init-save config juju "foo"

-- `open` adds a callback for the end, and `save` fails
abbrev acts : String → Body
acts c =
    if str_eq c "open"
    then record { registers = "flush" ∷ []; ending = returns }
    else if str_eq c "save"
    then record { registers = []; ending = raises "OSError" }
    else record { registers = []; ending = returns }

abbrev install : Body
install = record { registers = "close" ∷ []; ending = exits none }

abbrev hooks : Dict Body
hooks = ("install", install) ∷ []

abbrev env : Env
env = record { atstart_list = "open" ∷ []; atexit_list = "first" ∷ "save" ∷ []; log = [] }

runs_in_order :
    (execute acts hooks "install" env).1.log
    ≡ callback "open" ∷ hook "install" ∷ callback "close" ∷ callback "flush" ∷ callback "save" ∷ []
unfolding execute
runs_in_order = refl

execute_log_example :
    ((execute acts hooks "install" env).1.log ≡ [] ++ full_log acts "install" install env)
    × ((execute acts hooks "install" env).0 ≡ full_end acts install env)
execute_log_example = execute_log acts hooks "install" install env refl

abbrev failing : Body
failing = record { registers = []; ending = exits (some 1) }

abbrev small : Env
small = record { atstart_list = "open" ∷ []; atexit_list = "close" ∷ []; log = [] }

-- The work exits with code 1; the callbacks for the end run, and the hook ends well.
manage-failing :
    (manage acts failing small).1.log
    ≡ callback "open" ∷ hook "manage" ∷ callback "flush" ∷ callback "close" ∷ []
unfolding manage
manage-failing = refl
