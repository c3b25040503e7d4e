-- ===== src/Contexts.antt =====
-- charmhelpers/contrib/openstack/context.py: the base class of the context generators, and the
-- generators of the database and of the identity credentials. The relations are what juju shows.
use charm_helpers.Prelude.{
  ℕ, suc, String, List, [], ◌∷◌, ◌++◌, Bool, true, false, not, ◌&&◌, ◌||◌, Option, none, some, inl,
  inr, ◌⊎◌, is_some, or_else, str_eq, if◌then◌else◌, elem, add_once, any, Dict, lookup, insert,
  contains, codes, ltb, leb, ◌==◌, ◌*◌, ◌+◌, ◌-◌, same_text,
}
use Prim.Native.String.{◌++◌ as str_append}
use charm_helpers.Strutils.{openstack_releases, new_comparator, lt}
pub mod Search
pub mod Credentials
pub mod Amqp
pub mod Ceph
mod Tests

-- a context, in which `none` is Python's `None`
abbrev pub Ctxt : Type 0
Ctxt = Dict (Option String)

-- the attributes of a generator that its calls change
pub record Generator : Type 0 where
  pub related : Bool
  pub complete : Bool
  pub missing_data : List String

abbrev pub new_generator : Generator
new_generator = record { related = false; complete = false; missing_data = [] }

-- `v is None or v == ''`
abbrev pub is_missing : Option String → Bool
is_missing none = true
is_missing (some s) = str_eq s ""

-- the keys with no data, each once
unfoldable pub missing_keys : Ctxt → List String → List String
missing_keys [] missing = missing
missing_keys ((k, v) ∷ ctxt) missing =
    missing_keys ctxt (if is_missing v then add_once k missing else missing)

abbrev pub is_nil {ℓ} : {A : Type ℓ} → List A → Bool
is_nil [] = true
is_nil (x ∷ xs) = false

-- `OSContextGenerator.context_complete`
unfoldable pub context_complete : Ctxt → Generator → Bool × Generator
unfolding missing_keys
context_complete ctxt g =
    let missing = missing_keys ctxt [] in
    (is_nil missing, record g { complete = is_nil missing; missing_data = missing })

-- `OSContextGenerator.get_related`, where `relation_ids` is what juju answers for an interface
unfoldable pub get_related : (String → List String) → List String → Generator → Bool × Generator
get_related relation_ids interfaces g =
    let related = any (λ i. not (is_nil (relation_ids i))) interfaces in
    (related, record g { related = related })

-- the data of the units of a relation, by `related_units` and `relation_get`
abbrev pub Units : Type 0
Units = List (Dict String)

-- The loop over the units of one relation: it ends at the first whose context is complete, and
-- answers the data of that unit.
unfoldable pub search_units :
    (Dict String → Ctxt) → Units → Generator → Option (Dict String) × Generator
unfolding context_complete
search_units build [] g = (none, g)
search_units build (rdata ∷ units) g =
    let (complete, g1) = context_complete (build rdata) g in
    let rest = search_units build units g1 in if complete then (some rdata, g1) else rest

-- the loop over the relations
unfoldable pub search_relations :
    (Dict String → Ctxt) → List Units → Generator → Option (Dict String) × Generator
unfolding search_units
search_relations build [] g = (none, g)
search_relations build (units ∷ relations) g =
    let found = search_units build units (record g { related = true }) in
    let rest = search_relations build relations found.1 in
    elim found.0 [ some rdata ↦ found | none ↦ rest ]

-- What a call of a generator does: it raises `OSContextError` or another exception, returns `None`
-- after it has set the hostname, or returns a context and has written files.
pub data Called : Type 0 where
  context_error : Called
  failed : Called
  deferred : String → Option String → Called
  returned : Ctxt → Dict String → Called

-- a text as a condition
abbrev pub given : Option String → Bool
given v = not (is_missing v)

abbrev pub either_text : Option String → Option String → Option String
either_text a b = if given a then a else b

-- `PostgresqlDBContext.__call__`, where `database` is the argument of the constructor and
-- `config_database` the option
unfoldable pub postgresql_context : Option String → Dict String → Ctxt
postgresql_context database rdata =
    ("database_host", lookup "host" rdata)
    ∷ ("database", database)
    ∷ ("database_user", lookup "user" rdata)
    ∷ ("database_password", lookup "password" rdata)
    ∷ ("database_type", some "postgresql")
    ∷ []

unfoldable pub postgresql_call :
    Option String → Option String → List Units → Generator → Called × Generator
unfolding postgresql_context search_relations
postgresql_call database config_database relations g =
    let name = either_text database config_database in
    let found = search_relations (postgresql_context name) relations g in
    if is_some name
    then (
      elim found.0 [
        | none ↦ returned [] []
        | some rdata ↦ returned (postgresql_context name rdata) []
      ],
      found.1,
    )
    else (context_error, g)

-- the arguments of the constructor of `SharedDBContext`, and what the hook sees
pub record SharedDb : Type 0 where
  pub database : Option String
  pub user : Option String
  pub relation_prefix : Option String
  pub ssl_dir : Option String
  pub config_database : Option String
  pub config_user : Option String
  pub release : String
  pub access_network : Option String
  pub access_hostname : Option String
  pub set_hostname : Option String

-- `format_ipv6_addr(host) or host`, by a test for addresses of IPv6
unfoldable pub format_host : (String → Bool) → Option String → Option String
format_host is_ipv6 none = none
format_host is_ipv6 (some host) =
    if is_ipv6 host then some (str_append "[" (str_append host "]")) else some host

unfoldable pub hostname_key : Option String → String
hostname_key none = "hostname"
hostname_key (some prefix) = str_append prefix "_hostname"

unfoldable pub password_setting : Option String → String
password_setting prefix =
    if given prefix then str_append (or_else prefix "") "_password" else "password"

-- `CompareOpenStackReleases(rel) < 'queens'`; `none` is the KeyError of a release that is not known
unfoldable pub before_queens : String → Option Bool
before_queens release = elim (new_comparator openstack_releases release) [
  | none ↦ none
  | some i ↦ lt openstack_releases i "queens"
]

-- the context of one unit, where the release is known and older than queens or not
unfoldable pub shared_db_context : (String → Bool) → SharedDb → Bool → Dict String → Ctxt
unfolding format_host password_setting
shared_db_context is_ipv6 s is_older rdata =
    ("database_host", format_host is_ipv6 (lookup "db_host" rdata))
    ∷ ("database", either_text s.database s.config_database)
    ∷ ("database_user", either_text s.user s.config_user)
    ∷ ("database_password", lookup (password_setting s.relation_prefix) rdata)
    ∷ ("database_type", some (if is_older then "mysql" else "mysql+pymysql"))
    ∷ (if given (lookup "db_port" rdata)
        then ("database_port", lookup "db_port" rdata) ∷ []
        else [])

-- `os.path.join(ssl_dir, name)`
unfoldable pub ssl_path : String → String → String
ssl_path ssl_dir name = if str_eq ssl_dir "" then name else str_append ssl_dir (str_append "/" name)

-- the second half of `db_ssl`, on the certificate of the client; `ssl_dir` of `None` makes it raise
unfoldable pub db_ssl_cert :
    (String → String) → Dict String → Ctxt → Dict String → Option String → Called
unfolding ssl_path
db_ssl_cert b64decode rdata ctxt files ssl_dir = elim (lookup "ssl_cert" rdata) [
  | none ↦ returned ctxt files
  | some cert ↦ elim ssl_dir [
    | none ↦ failed
    | some dir ↦ elim (lookup "ssl_key" rdata) [
      | none ↦ failed
      | some key ↦
          returned
            (insert "database_ssl_key" (some (ssl_path dir "db-client.key"))
              (insert "database_ssl_cert" (some (ssl_path dir "db-client.cert")) ctxt))
            (insert (ssl_path dir "db-client.key") (b64decode key)
              (insert (ssl_path dir "db-client.cert") (b64decode cert) files))
    ]
  ]
]

-- `db_ssl`
unfoldable pub db_ssl : (String → String) → Dict String → Ctxt → Option String → Called
unfolding db_ssl_cert
db_ssl b64decode rdata ctxt ssl_dir = elim (lookup "ssl_ca" rdata) [
  | none ↦ db_ssl_cert b64decode rdata ctxt [] ssl_dir
  | some ca ↦
      let path = ssl_path (or_else ssl_dir "") "db-client.ca" in
      let with_ca =
        db_ssl_cert b64decode rdata (insert "database_ssl_ca" (some path) ctxt)
          ((path, b64decode ca) ∷ []) ssl_dir in
      if given ssl_dir then with_ca else returned ctxt []
]

-- the two loops for a release that is not known: the first unit makes the comparison raise
unfoldable pub search_unknown : List Units → Generator → Called × Generator
search_unknown [] g = (returned [] [], g)
search_unknown ([] ∷ relations) g = search_unknown relations (record g { related = true })
search_unknown ((rdata ∷ units) ∷ relations) g = (failed, record g { related = true })

-- the two loops for a release that is known
unfoldable pub search_known :
    (String → Bool)
    → (String → String)
    → SharedDb
    → Bool
    → List Units
    → Generator
    → Called × Generator
unfolding shared_db_context search_relations db_ssl
search_known is_ipv6 b64decode s is_older relations g =
    let found = search_relations (shared_db_context is_ipv6 s is_older) relations g in
    (
      elim found.0 [
        | none ↦ returned [] []
        | some rdata ↦ db_ssl b64decode rdata (shared_db_context is_ipv6 s is_older rdata) s.ssl_dir
      ],
      found.1,
    )

-- `SharedDBContext.__call__`
unfoldable pub shared_db_call :
    (String → Bool) → (String → String) → SharedDb → List Units → Generator → Called × Generator
unfolding before_queens search_known search_unknown hostname_key
shared_db_call is_ipv6 b64decode s relations g =
    if not (
      is_some (either_text s.database s.config_database)
      && is_some (either_text s.user s.config_user))
    then (context_error, g)
    else if is_some s.access_network && not (same_text s.set_hostname s.access_hostname)
    then (deferred (hostname_key s.relation_prefix) s.access_hostname, g)
    else elim (before_queens s.release) [
      | none ↦ search_unknown relations g
      | some is_older ↦ search_known is_ipv6 b64decode s is_older relations g
    ]
