-- ===== src/Contexts/Amqp.antt =====
-- charmhelpers/contrib/openstack/context.py: `AMQPContext`. One context is filled by all units of all
-- relations in turn; its keys whose values are no texts are fields of their own.
use Prim.Native.String.{◌++◌ as str_append, compare}
use text.Mathlib.Text.{is_lt}
use charm_helpers.Prelude.{
  String, List, [], ◌∷◌, Bool, true, false, not, ◌&&◌, ◌||◌, Option, none, some, is_some, or_else,
  if◌then◌else◌, map, Dict, lookup, insert, update_dict, join_with,
}
use charm_helpers.Contexts.{Ctxt, Generator, is_nil, context_complete, given, format_host, ssl_path}
pub mod Starved
mod Tests

-- the arguments of the constructor, the configuration of the charm, and the functions that are called
pub record Amqp : Type 0 where
  pub ssl_dir : Option String
  pub relation_prefix : Option String
  pub conf : Ctxt
  pub sends_to_logs : Bool
  pub is_ipv6 : String → Bool
  pub b64decode : String → String
  pub config_flags_parser : String → Dict String

-- a unit of the broker: the address that Juju sets for every unit, and the rest of its data
pub record RelatedUnit : Type 0 where
  pub private_address : String
  pub rdata : Dict String

pub record Filled : Type 0 where
  pub ctxt : Ctxt
  pub clustered : Bool
  pub ha_queues : Bool
  pub flags : Option (Dict String)
  pub send_notifications_to_logs : Bool

abbrev pub nothing_filled : Filled
nothing_filled = record {
  ctxt = [];
  clustered = false;
  ha_queues = false;
  flags = none;
  send_notifications_to_logs = false;
}

-- the variables of the loop over the units of one relation, and the files
pub record Loop : Type 0 where
  pub filled : Filled
  pub generator : Generator
  pub files : Dict String
  pub ha_vip_only : Bool
  pub transport_hosts : List String
  pub rabbitmq_port : String

-- `format(value)`
abbrev pub show : Option String → String
show none = "None"
show (some s) = s

abbrev pub show_at : String → Ctxt → String
show_at k ctxt = show (or_else (lookup k ctxt) none)

abbrev pub setting : Amqp → String → String
setting a name =
    if given a.relation_prefix
    then str_append (or_else a.relation_prefix "") (str_append "-" name)
    else name

-- the host that a unit names
unfoldable pub host_of : Amqp → RelatedUnit → Option String
unfolding format_host
host_of a u =
    if given (lookup "clustered" u.rdata)
    then format_host a.is_ipv6 (lookup "vip" u.rdata)
    else format_host a.is_ipv6 (some u.private_address)

-- what each unit sets
unfoldable pub credentials_of : Amqp → Option String → Option String → RelatedUnit → Ctxt
unfolding host_of
credentials_of a username vhost u =
    ("rabbitmq_host", host_of a u)
    ∷ ("rabbitmq_user", username)
    ∷ ("rabbitmq_password", lookup "password" u.rdata)
    ∷ ("rabbitmq_virtual_host", vhost)
    ∷ []

abbrev pub when_given : String → Option String → Ctxt
when_given k v = if given v then (k, v) ∷ [] else []

-- the context after one more unit
unfoldable pub fill_unit : Amqp → Option String → Option String → RelatedUnit → Filled → Filled
unfolding credentials_of
fill_unit a username vhost u f = record f {
  ctxt =
      update_dict
        (update_dict (update_dict f.ctxt (credentials_of a username vhost u))
          (when_given "rabbit_ssl_port" (lookup "ssl_port" u.rdata)))
        (when_given "rabbit_ssl_ca" (lookup "ssl_ca" u.rdata));
  clustered = f.clustered || given (lookup "clustered" u.rdata);
  ha_queues = f.ha_queues || is_some (lookup "ha_queues" u.rdata);
}

-- the loop's variables after one more unit, but for the generator
unfoldable pub visit : Amqp → Option String → Option String → RelatedUnit → Loop → Loop
unfolding fill_unit
visit a username vhost u l = record l {
  filled = fill_unit a username vhost u l.filled;
  ha_vip_only = is_some (lookup "ha-vip-only" u.rdata);
  transport_hosts = show (host_of a u) ∷ [];
  rabbitmq_port =
      if given (lookup "ssl_port" u.rdata)
      then or_else (lookup "ssl_port" u.rdata) ""
      else l.rabbitmq_port;
}

-- the file of the certificate, when the context is complete
unfoldable pub write_ca : Amqp → Loop → Loop
write_ca a l = elim (lookup "rabbit_ssl_ca" l.filled.ctxt) [
  | none ↦ l
  | some ca ↦
      let path = ssl_path (or_else a.ssl_dir "") "rabbit-client-ca.pem" in
      if given a.ssl_dir
      then record l {
        files = insert path (a.b64decode (show ca)) l.files;
        filled = record l.filled { ctxt = insert "rabbit_ssl_ca" (some path) l.filled.ctxt };
      }
      else l
]

-- the loop over the units of one relation
unfoldable pub amqp_units : Amqp → Option String → Option String → List RelatedUnit → Loop → Loop
unfolding visit write_ca context_complete
amqp_units a username vhost [] l = l
amqp_units a username vhost (u ∷ units) l =
    let l1 = visit a username vhost u l in
    let (complete, g1) = context_complete l1.filled.ctxt l.generator in
    let l2 : Loop = record l1 { generator = g1 } in
    let rest = amqp_units a username vhost units l2 in if complete then write_ca a l2 else rest

-- `sorted`, on texts
abbrev pub insert_text : String → List String → List String
insert_text x [] = x ∷ []
insert_text x (y ∷ ys) =
    let rest = insert_text x ys in if is_lt (compare y x) then y ∷ rest else x ∷ y ∷ ys

abbrev pub sorted : List String → List String
sorted [] = []
sorted (x ∷ xs) = insert_text x (sorted xs)

-- the hosts of the units that have sent a password
unfoldable pub ready_hosts : Amqp → List RelatedUnit → List String
ready_hosts a [] = []
ready_hosts a (u ∷ units) =
    let rest = ready_hosts a units in
    if given (lookup "password" u.rdata)
    then show (format_host a.is_ipv6 (some u.private_address)) ∷ rest
    else rest

-- the URL that names the hosts, if there are any
unfoldable pub with_url : Option String → String → List String → Filled → Filled
with_url vhost port hosts f =
    let url_of = λ (host : String). str_append (show_at "rabbitmq_user" f.ctxt) (
      str_append ":" (
        str_append (show_at "rabbitmq_password" f.ctxt)
          (str_append "@" (str_append host (str_append ":" port))))) in
    if is_nil hosts then f else record f {
      ctxt =
          insert "transport_url"
            (some (
              str_append "rabbit://"
                (str_append (join_with "," (map url_of hosts)) (str_append "/" (show vhost)))))
            f.ctxt;
    }

abbrev pub is_several : List RelatedUnit → Bool
is_several [] = false
is_several (u ∷ []) = false
is_several (u ∷ v ∷ units) = true

-- the hosts of all units, unless a cluster has one address
unfoldable pub with_hosts : Amqp → Option String → List RelatedUnit → Loop → Loop
unfolding ready_hosts with_url
with_hosts a vhost units l =
    let hosts = sorted (ready_hosts a units) in
    if (not l.filled.clustered || l.ha_vip_only) && is_several units
    then record l {
      filled = with_url vhost l.rabbitmq_port hosts (record l.filled {
        ctxt = insert "rabbitmq_hosts" (some (join_with "," hosts)) l.filled.ctxt;
      });
    }
    else record l { filled = with_url vhost l.rabbitmq_port l.transport_hosts l.filled }

-- the loop over the relations
unfoldable pub amqp_relations :
    Amqp → Option String → Option String → List (List RelatedUnit) → Loop → Loop
unfolding amqp_units with_hosts
amqp_relations a username vhost [] l = l
amqp_relations a username vhost (units ∷ relations) l = amqp_relations a username vhost relations (
    with_hosts a vhost units (
      amqp_units a username vhost units (record l {
        generator = record l.generator { related = true };
        ha_vip_only = false;
        transport_hosts = [];
        rabbitmq_port = "5672";
      })))

abbrev pub option_at : Amqp → String → Option String
option_at a k = or_else (lookup k a.conf) none

abbrev pub flags_of : Amqp → Option String → Option (Dict String)
flags_of a v = if given v then some (a.config_flags_parser (or_else v "")) else none

-- what the configuration adds
unfoldable pub with_options : Amqp → Filled → Filled
with_options a f = record f {
  ctxt =
      update_dict
        (update_dict
          (update_dict f.ctxt (
            when_given "oslo_messaging_driver"
              (or_else (lookup "oslo-messaging-driver" a.conf) (some "messagingv2"))))
          (when_given "notification_format" (option_at a "notification-format")))
        (when_given "notification_topics" (option_at a "notification-topics"));
  flags = flags_of a (option_at a "oslo-messaging-flags");
  send_notifications_to_logs = a.sends_to_logs;
}

-- what is left after a call: the context, or none if `OSContextError` is raised, with the generator
-- and the files
pub record Called : Type 0 where
  pub result : Option Filled
  pub generator_after : Generator
  pub files_after : Dict String

abbrev pub new_loop : Generator → Loop
new_loop g = record {
  filled = nothing_filled;
  generator = g;
  files = [];
  ha_vip_only = false;
  transport_hosts = [];
  rabbitmq_port = "5672";
}

-- `AMQPContext.__call__`
unfoldable pub amqp_call : Amqp → List (List RelatedUnit) → Generator → Called
unfolding amqp_relations with_options
amqp_call a relations g = elim (lookup (setting a "rabbit-user") a.conf) [
  | none ↦ record { result = none; generator_after = g; files_after = [] }
  | some username ↦ elim (lookup (setting a "rabbit-vhost") a.conf) [
    | none ↦ record { result = none; generator_after = g; files_after = [] }
    | some vhost ↦
        let l = amqp_relations a username vhost relations (new_loop g) in
        record {
          result = some (if l.generator.complete then with_options a l.filled else nothing_filled);
          generator_after = l.generator;
          files_after = l.files;
        }
  ]
]
