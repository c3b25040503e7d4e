-- ===== src/Templating/Tests.antt =====
-- charmhelpers/contrib/openstack/templating.py: two configuration files, and the theorems on them.
use charm_helpers.Prelude.{
  String, ◌≡◌, refl, [], ◌∷◌, true, false, not, none, some, is_some, inl, Dict, lookup,
  if◌then◌else◌, str_eq, List,
}
use charm_helpers.Workload.Interfaces.{HookName, check_generic_interfaces}
use charm_helpers.Templating.{
  Generator, Renderer, Engine, register, render, write_all, basename, munged, not_registered,
}
use charm_helpers.Templating.Contexts.{AllNew, configs_of, all_served, check-configs_of}

-- An engine whose templates are texts, put before the value of `host`.
abbrev engine : Engine
engine = record {
  Template = String;
  from_string = λ s. s;
  get_template = λ release name. if str_eq name "etc_nova.conf" then some "nova" else none;
  render_template = λ template ctxt. elim (lookup "host" ctxt) [ none ↦ template | some h ↦ h ];
}

abbrev database : Generator
database = record {
  interfaces = "shared-db" ∷ [];
  result = some (("host", "10.0.0.1") ∷ []);
  get_related = true;
  missing_data = [];
}

abbrev messages : Generator
messages = record {
  interfaces = "amqp" ∷ [];
  result = some [];
  get_related = true;
  missing_data = "password" ∷ [];
}

unfoldable renderer : Renderer
unfolding register
renderer = register "/etc/nova.conf" (database ∷ []) none (
    register "/etc/extra" (messages ∷ []) (some "extra")
      (record { openstack_release = "queens"; templates = [] }))

munged_name : munged "/etc/nova.conf" ≡ "etc_nova.conf"
unfolding munged
munged_name = refl

basename_name : basename "/etc/nova.conf" ≡ "nova.conf"
unfolding basename
basename_name = refl

unregistered : (render engine "/etc/other" renderer).0 ≡ inl not_registered
unfolding render renderer
unregistered = refl

written :
    ((write_all engine (renderer, [])).1).1
    ≡ ("/etc/extra", "extra") ∷ ("/etc/nova.conf", "10.0.0.1") ∷ []
unfolding write_all renderer
written = refl

abbrev hook_name : HookName
hook_name = record { is_departure = false; mentions = λ i. false }

abbrev required : Dict (List String)
required = ("database", "shared-db" ∷ "pgsql-db" ∷ []) ∷ ("messaging", "amqp" ∷ []) ∷ []

new_templates : AllNew renderer.templates
unfolding AllNew renderer register
new_templates = (refl, (refl, tt))

check-configs_of_example :
    is_some (check_generic_interfaces hook_name (configs_of renderer) required).0
    ≡ not (all_served renderer required)
check-configs_of_example = check-configs_of hook_name renderer required new_templates
