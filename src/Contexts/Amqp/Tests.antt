-- ===== src/Contexts/Amqp/Tests.antt =====
-- charmhelpers/contrib/openstack/context.py: contexts of concrete brokers, and the theorem on them.
use charm_helpers.Prelude.{
  String, ◌≡◌, refl, [], ◌∷◌, false, Option, none, some, lookup, str_eq, if◌then◌else◌,
}
use charm_helpers.Contexts.{ssl_path, Ctxt, new_generator}
use charm_helpers.Contexts.Amqp.{Amqp, RelatedUnit, Filled, amqp_call, nothing_filled}
use charm_helpers.Contexts.Amqp.Starved.{amqp_call-starved}

abbrev nova : Amqp
nova = record {
  ssl_dir = some "/etc/nova";
  relation_prefix = none;
  conf = ("rabbit-user", some "nova") ∷ ("rabbit-vhost", some "openstack") ∷ [];
  sends_to_logs = false;
  is_ipv6 = λ s. false;
  b64decode = λ s. if str_eq s "Q0E=" then "CA" else "?";
  config_flags_parser = λ s. [];
}

abbrev waiting : String → RelatedUnit
waiting host = record { private_address = host; rdata = [] }

abbrev ready : String → RelatedUnit
ready host = record { private_address = host; rdata = ("password", "p") ∷ [] }

abbrev ctxt_of : Option Filled → Ctxt
ctxt_of none = []
ctxt_of (some f) = f.ctxt

lists_hosts_in_order :
    lookup "transport_url"
      (ctxt_of (amqp_call nova ((ready "h2" ∷ ready "h1" ∷ []) ∷ []) new_generator).result)
    ≡ some (some "rabbit://nova:p@h1:5672,nova:p@h2:5672/openstack")
unfolding amqp_call
lists_hosts_in_order = refl

passes_over_waiting :
    lookup "rabbitmq_hosts"
      (ctxt_of (amqp_call nova ((waiting "h1" ∷ ready "h2" ∷ []) ∷ []) new_generator).result)
    ≡ some (some "h2")
unfolding amqp_call
passes_over_waiting = refl

-- the second relation decodes the path that the first has put in the place of the certificate
overwrites_ca :
    (amqp_call nova
      ((record { private_address = "h1"; rdata = ("password", "p") ∷ ("ssl_ca", "Q0E=") ∷ [] } ∷ [])
        ∷ (ready "h2" ∷ [])
        ∷ [])
      new_generator).files_after
    ≡ ("/etc/nova/rabbit-client-ca.pem", "?") ∷ []
unfolding amqp_call ssl_path
overwrites_ca = refl

amqp_call-starved_example :
    (amqp_call nova
      ((waiting "h1" ∷ waiting "h2" ∷ []) ∷ (ready "h3" ∷ []) ∷ [])
      new_generator).result
    ≡ some nothing_filled
amqp_call-starved_example =
    amqp_call-starved nova (waiting "h1" ∷ waiting "h2" ∷ []) (ready "h3" ∷ []) new_generator
      (some "nova") (some "openstack") refl refl ((refl, refl), ((refl, refl), tt)) refl refl
