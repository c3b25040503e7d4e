-- ===== src/Contexts/Amqp/Starved.antt =====
-- charmhelpers/contrib/openstack/context.py: `AMQPContext` on a relation whose units are not ready.
use charm_helpers.Prelude.{
  String, ◌≡◌, refl, ap, ◌∙◌, List, [], ◌∷◌, true, false, Option, some, lookup, insert, update_dict,
  lookup-update_dict, lookup-insert, str_eq, contains, arith, Bool-cases, inl, inr, All, All-of,
}
use charm_helpers.Contexts.{Ctxt, Generator, is_missing, context_complete, given}
use charm_helpers.Contexts.Search.{all_given, is_nil-missing_keys}
use charm_helpers.Contexts.Credentials.{all_given-is_missing}
use charm_helpers.Contexts.Amqp.{
  Amqp, RelatedUnit, Filled, Loop, host_of, setting, when_given, credentials_of, fill_unit, visit,
  amqp_units, ready_hosts, with_url, with_hosts, amqp_relations, amqp_call, nothing_filled,
  new_loop, is_several,
}

contains-when_given :
    (j k : String) (v : Option String) → str_eq k j ≡ false → contains j (when_given k v) ≡ false
contains-when_given j k v h = elim (Bool-cases (given v)) [
  | inl e ↦ rw (e, h) refl
  | inr e ↦ rw (e) refl
]

-- a key that is none of the two optional ones
lookup-fill_unit :
    (a : Amqp) (username vhost : Option String) (u : RelatedUnit) (f : Filled) (k : String)
    → str_eq "rabbit_ssl_port" k ≡ false
    → str_eq "rabbit_ssl_ca" k ≡ false
    → lookup k (fill_unit a username vhost u f).ctxt
      ≡ lookup k (update_dict f.ctxt (credentials_of a username vhost u))
unfolding fill_unit
lookup-fill_unit a username vhost u f k h1 h2 =
    lookup-update_dict k _ (when_given "rabbit_ssl_ca" (lookup "ssl_ca" u.rdata))
      (contains-when_given k "rabbit_ssl_ca" (lookup "ssl_ca" u.rdata) h2)
    ∙ lookup-update_dict k (update_dict f.ctxt (credentials_of a username vhost u))
        (when_given "rabbit_ssl_port" (lookup "ssl_port" u.rdata))
        (contains-when_given k "rabbit_ssl_port" (lookup "ssl_port" u.rdata) h1)

password-fill_unit :
    (a : Amqp) (username vhost : Option String) (u : RelatedUnit) (f : Filled)
    → lookup "rabbitmq_password" (fill_unit a username vhost u f).ctxt
      ≡ some (lookup "password" u.rdata)
unfolding credentials_of
password-fill_unit a username vhost u f =
    lookup-fill_unit a username vhost u f "rabbitmq_password" refl refl
    ∙ (lookup-insert "rabbitmq_virtual_host" "rabbitmq_password" vhost
          (insert "rabbitmq_password" (lookup "password" u.rdata) before)
        ∙ lookup-insert "rabbitmq_password" "rabbitmq_password" (lookup "password" u.rdata) before)
  where
    before : Ctxt
    before = insert "rabbitmq_user" username (insert "rabbitmq_host" (host_of a u) f.ctxt)

-- The list of hosts was set to the empty text.
abbrev pub Hostless : Filled → Type 0
Hostless f = lookup "rabbitmq_hosts" f.ctxt ≡ some (some "")

Hostless-fill_unit :
    (a : Amqp) (username vhost : Option String) (u : RelatedUnit) (f : Filled)
    → Hostless f
    → Hostless (fill_unit a username vhost u f)
unfolding credentials_of
Hostless-fill_unit a username vhost u f h =
    lookup-fill_unit a username vhost u f "rabbitmq_hosts" refl refl
    ∙ (lookup-update_dict "rabbitmq_hosts" f.ctxt (credentials_of a username vhost u) refl ∙ h)

-- A loop in which no context is complete, since something about the filled context stays true.
module _ (a : Amqp) (username vhost : Option String) (P : Filled → Type 0)
    (Q : RelatedUnit → Type 0)
    (stays : (u : RelatedUnit) (f : Filled)
      → Q u
      → P f
      → (all_given (fill_unit a username vhost u f).ctxt ≡ false)
        × P (fill_unit a username vhost u f)) where
  amqp_units-incomplete :
      (units : List RelatedUnit) (l : Loop)
      → All Q units
      → P l.filled
      → l.generator.complete ≡ false
      → (P (amqp_units a username vhost units l).filled)
        × ((amqp_units a username vhost units l).generator.complete ≡ false)
  unfolding amqp_units visit context_complete
  amqp_units-incomplete [] l q p c = (p, c)
  amqp_units-incomplete (u ∷ units) l q p c =
      let (missing, p1) = stays u l.filled q.0 p in
      rw (is_nil-missing_keys (fill_unit a username vhost u l.filled).ctxt [] ∙ missing, amqp_units)
        (amqp_units-incomplete units _ q.1 p1 refl)

-- A unit that has sent no password, and belongs to no cluster.
abbrev pub Unready : RelatedUnit → Type 0
Unready u =
    (given (lookup "password" u.rdata) ≡ false) × (given (lookup "clustered" u.rdata) ≡ false)

not_given : (v : Option String) → given v ≡ false → is_missing v ≡ true
not_given v h = ground arith

fill_unit-Unready :
    (a : Amqp) (username vhost : Option String) (u : RelatedUnit) (f : Filled)
    → Unready u
    → f.clustered ≡ false
    → (all_given (fill_unit a username vhost u f).ctxt ≡ false)
      × ((fill_unit a username vhost u f).clustered ≡ false)
unfolding fill_unit
fill_unit-Unready a username vhost u f (password, apart) c = (
  all_given-is_missing "rabbitmq_password" (lookup "password" u.rdata) _
      (not_given (lookup "password" u.rdata) password) (password-fill_unit a username vhost u f),
  rw (c) apart,
)

fill_unit-Hostless :
    (a : Amqp) (username vhost : Option String) (u : RelatedUnit) (f : Filled)
    → u ≡ u
    → Hostless f
    → (all_given (fill_unit a username vhost u f).ctxt ≡ false)
      × Hostless (fill_unit a username vhost u f)
fill_unit-Hostless a username vhost u f e h =
    let h1 = Hostless-fill_unit a username vhost u f h in
    (all_given-is_missing "rabbitmq_hosts" (some "") _ refl h1, h1)

ready_hosts-Unready :
    (a : Amqp) (units : List RelatedUnit) → All Unready units → ready_hosts a units ≡ []
unfolding ready_hosts
ready_hosts-Unready a [] q = refl
ready_hosts-Unready a (u ∷ units) q = rw (q.0.0, ready_hosts) (ready_hosts-Unready a units q.1)

Hostless-with_hosts :
    (a : Amqp) (vhost : Option String) (units : List RelatedUnit) (l : Loop)
    → All Unready units
    → is_several units ≡ true
    → l.filled.clustered ≡ false
    → Hostless (with_hosts a vhost units l).filled
unfolding with_hosts with_url
Hostless-with_hosts a vhost units l q several c =
    rw (c, several, ready_hosts-Unready a units q, with_hosts)
      (lookup-insert "rabbitmq_hosts" "rabbitmq_hosts" (some "") l.filled.ctxt)

with_hosts-generator :
    (a : Amqp) (vhost : Option String) (units : List RelatedUnit) (l : Loop)
    → (with_hosts a vhost units l).generator ≡ l.generator
unfolding with_hosts
with_hosts-generator a vhost units l = ground arith

-- the loop's variables at the beginning of a relation
abbrev at_start : Loop → Loop
at_start l = record l {
  generator = record l.generator { related = true };
  ha_vip_only = false;
  transport_hosts = [];
  rabbitmq_port = "5672";
}

amqp_relations-starved :
    (a : Amqp) (username vhost : Option String) (first other : List RelatedUnit) (l : Loop)
    → All Unready first
    → is_several first ≡ true
    → l.filled.clustered ≡ false
    → l.generator.complete ≡ false
    → (amqp_relations a username vhost (first ∷ other ∷ []) l).generator.complete ≡ false
unfolding amqp_relations
amqp_relations-starved a username vhost first other l q several c g =
    let l1 = amqp_units a username vhost first (at_start l) in
    let one =
      amqp_units-incomplete a username vhost (λ f. f.clustered ≡ false) Unready
        (fill_unit-Unready a username vhost) first (at_start l) q c g in
    let l2 = with_hosts a vhost first l1 in
    let two =
      amqp_units-incomplete a username vhost Hostless (λ u. u ≡ u)
        (fill_unit-Hostless a username vhost) other (at_start l2)
        (All-of (λ u. u ≡ u) (λ u. refl) other)
        (Hostless-with_hosts a vhost first l1 q several one.0)
        (ap (λ x. x.complete) (with_hosts-generator a vhost first l1) ∙ one.1) in
    ap (λ x. x.complete)
      (with_hosts-generator a vhost other (amqp_units a username vhost other (at_start l2)))
    ∙ two.1

-- Of two relations with brokers, the first has several units, none of which has sent a password yet or
-- belongs to a cluster. Then the call of a generator that was not complete returns an empty context,
-- though the units of the second relation may have sent everything.
pub amqp_call-starved :
    (a : Amqp) (first other : List RelatedUnit) (g : Generator) (username vhost : Option String)
    → lookup (setting a "rabbit-user") a.conf ≡ some username
    → lookup (setting a "rabbit-vhost") a.conf ≡ some vhost
    → All Unready first
    → is_several first ≡ true
    → g.complete ≡ false
    → (amqp_call a (first ∷ other ∷ []) g).result ≡ some nothing_filled
unfolding amqp_call
amqp_call-starved a first other g username vhost user host q several c =
    rw
      (
        user,
        host,
        amqp_relations-starved a username vhost first other (new_loop g) q several refl c,
        amqp_call,
      )
      refl
