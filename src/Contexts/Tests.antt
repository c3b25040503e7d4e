-- ===== src/Contexts/Tests.antt =====
-- charmhelpers/contrib/openstack/context.py: contexts of concrete relations, and the theorems on them.
use charm_helpers.Prelude.{
  String, ◌≡◌, refl, List, [], ◌∷◌, Bool, true, false, none, some, is_some, Dict,
}
use charm_helpers.Contexts.{
  new_generator, Units, returned, postgresql_call, SharedDb, shared_db_call, failed, before_queens,
}
use charm_helpers.Strutils.{new_comparator, index, openstack_releases}
use charm_helpers.Contexts.Search.{all_units, expected_call, shared_db_call_lem}
use charm_helpers.Contexts.Credentials.{
  above_two, api_version_of, credentials_call, credentials_call-blocked,
}

abbrev relations : List Units
relations =
    ((("host", "10.0.0.1") ∷ []) ∷ [])
    ∷ ((("host", "10.0.0.2") ∷ ("user", "u") ∷ ("password", "p") ∷ []) ∷ [])
    ∷ []

postgresql_second :
    (postgresql_call (some "db") none relations new_generator).0
    ≡ returned
        (("database_host", some "10.0.0.2")
          ∷ ("database", some "db")
          ∷ ("database_user", some "u")
          ∷ ("database_password", some "p")
          ∷ ("database_type", some "postgresql")
          ∷ [])
        []
unfolding postgresql_call
postgresql_second = refl

abbrev shared : SharedDb
shared = record {
  database = some "nova";
  user = some "nova";
  relation_prefix = some "nova";
  ssl_dir = none;
  config_database = none;
  config_user = none;
  release = "yoga";
  access_network = none;
  access_hostname = none;
  set_hostname = none;
}

abbrev shared_relations : List Units
shared_relations = ((("db_host", "::1") ∷ ("nova_password", "p") ∷ []) ∷ []) ∷ []

abbrev no_ipv6 : String → Bool
no_ipv6 s = false

abbrev same : String → String
same s = s

-- a release that the list does not have
unknown_release :
    (shared_db_call no_ipv6 same
      (record shared { release = "zulu" })
      shared_relations
      new_generator).0
    ≡ failed
unfolding shared_db_call before_queens new_comparator index openstack_releases
unknown_release = refl

shared_db_call_lem_example :
    (shared_db_call no_ipv6 same shared shared_relations new_generator).0
    ≡ expected_call no_ipv6 same shared (before_queens "yoga") (all_units shared_relations)
shared_db_call_lem_example =
    shared_db_call_lem no_ipv6 same shared shared_relations new_generator refl refl refl refl

-- a unit of version 3 without its domain, and one of version 2 that is ready
abbrev first_unit : Dict String
first_unit = ("api_version", "3") ∷ []

abbrev ready_unit : Dict String
ready_unit =
    ("credentials_port", "5000")
    ∷ ("credentials_host", "h")
    ∷ ("auth_host", "h")
    ∷ ("auth_port", "35357")
    ∷ ("credentials_project", "p")
    ∷ ("credentials_project_id", "i")
    ∷ ("credentials_username", "u")
    ∷ ("credentials_password", "s")
    ∷ []

ready_alone : is_some (credentials_call no_ipv6 ((ready_unit ∷ []) ∷ []) new_generator).0 ≡ true
unfolding credentials_call
ready_alone = refl

ready_complete : (credentials_call no_ipv6 ((ready_unit ∷ []) ∷ []) new_generator).1.complete ≡ true
unfolding credentials_call
ready_complete = refl

version_three : above_two (api_version_of first_unit) ≡ some true
unfolding above_two api_version_of
version_three = refl

version_two : above_two (api_version_of ready_unit) ≡ some false
unfolding above_two api_version_of
version_two = refl

credentials_call-blocked_example :
    (credentials_call no_ipv6 ((first_unit ∷ ready_unit ∷ []) ∷ []) new_generator).0 ≡ some []
credentials_call-blocked_example =
    credentials_call-blocked no_ipv6 first_unit (ready_unit ∷ []) new_generator version_three refl
      (version_two, tt)
