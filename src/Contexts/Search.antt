-- ===== src/Contexts/Search.antt =====
-- charmhelpers/contrib/openstack/context.py: which unit the database contexts are taken from.
use charm_helpers.Prelude.{
  String, ◌≡◌, refl, sym, ap, ◌∙◌, List, [], ◌∷◌, ◌++◌, Bool, true, false, not, ◌&&◌, Option, none,
  some, is_some, if◌then◌else◌, add_once, Dict, arith, Bool-cases, Option-cases, inl, inr,
  same_text,
}
use charm_helpers.Contexts.{
  Ctxt, Generator, is_missing, missing_keys, is_nil, context_complete, Units, search_units,
  search_relations, Called, returned, either_text, postgresql_context, postgresql_call, SharedDb,
  shared_db_context, shared_db_call, db_ssl, search_known, search_unknown, before_queens, failed,
}

-- An independent description of a complete context: each key has a text, and not the empty one.
unfoldable pub all_given : Ctxt → Bool
all_given [] = true
all_given ((k, v) ∷ ctxt) = not (is_missing v) && all_given ctxt

-- the units of all relations, in their order
unfoldable pub all_units : List Units → Units
all_units [] = []
all_units (units ∷ relations) = units ++ all_units relations

-- the first of them whose context is complete
unfoldable pub first_ready : (Dict String → Ctxt) → Units → Option (Dict String)
unfolding all_given
first_ready build [] = none
first_ready build (rdata ∷ units) =
    let rest = first_ready build units in if all_given (build rdata) then some rdata else rest

is_nil-add_once : (k : String) (ks : List String) → is_nil (add_once k ks) ≡ false
is_nil-add_once k [] = refl
is_nil-add_once k (j ∷ ks) = ground arith

pub is_nil-missing_keys :
    (ctxt : Ctxt) (missing : List String)
    → is_nil (missing_keys ctxt missing) ≡ (is_nil missing && all_given ctxt)
unfolding missing_keys all_given
is_nil-missing_keys [] missing = ground arith
is_nil-missing_keys ((k, v) ∷ ctxt) missing = ground (
  arith,
  is_nil-missing_keys ctxt missing,
  is_nil-missing_keys ctxt (add_once k missing),
  is_nil-add_once k missing,
)

first_ready-append :
    (build : Dict String → Ctxt) (xs ys : Units)
    → first_ready build (xs ++ ys) ≡ elim (first_ready build xs) as (λ o. Option (Dict String)) [
      | some rdata ↦ some rdata
      | none ↦ first_ready build ys
    ]
unfolding first_ready
first_ready-append build [] ys = refl
first_ready-append build (rdata ∷ xs) ys = elim (Bool-cases (all_given (build rdata))) [
  | inl h ↦ rw (h) refl
  | inr h ↦ rw (h) (first_ready-append build xs ys)
]

-- A search answers the unit, and the generator is complete if there is one.
abbrev pub Finds : Option (Dict String) → Option (Dict String) × Generator → Type 0
Finds o (found, g) = (found ≡ o) × (g.complete ≡ is_some found)

search_units-Finds :
    (build : Dict String → Ctxt) (units : Units) (g : Generator)
    → g.complete ≡ false
    → Finds (first_ready build units) (search_units build units g)
unfolding search_units first_ready context_complete
search_units-Finds build [] g h = (refl, h)
search_units-Finds build (rdata ∷ units) g h = elim (Bool-cases (all_given (build rdata))) [
  | inl k ↦ rw (k, is_nil-missing_keys (build rdata) [] ∙ k, search_units) (refl, refl)
  | inr k ↦
      rw (k, is_nil-missing_keys (build rdata) [] ∙ k, search_units)
        (search_units-Finds build units _ refl)
]

search_relations-Finds :
    (build : Dict String → Ctxt) (relations : List Units) (g : Generator)
    → g.complete ≡ false
    → Finds (first_ready build (all_units relations)) (search_relations build relations g)
unfolding search_relations all_units first_ready
search_relations-Finds build [] g h = (refl, h)
search_relations-Finds build (units ∷ relations) g h =
    by_units (search_units-Finds build units (record g { related = true }) h)
      (λ g1 k. search_relations-Finds build relations g1 k)
  where
    by_units :
        Finds (first_ready build units) (search_units build units (record g { related = true }))
        → ((g1 : Generator)
            → g1.complete ≡ false
            → Finds (first_ready build (all_units relations)) (search_relations build relations g1))
        → Finds
            (first_ready build (units ++ all_units relations))
            (search_relations build (units ∷ relations) g)
    by_units u rest =
        elim (Option-cases (search_units build units (record g { related = true })).0) [
          | inl e ↦
              rw
                (
                  first_ready-append build units (all_units relations),
                  sym u.0 ∙ e,
                  e,
                  search_relations,
                )
                (rest _ (u.1 ∙ ap is_some e))
          | inr (rdata, e) ↦
              rw
                (
                  first_ready-append build units (all_units relations),
                  sym u.0 ∙ e,
                  e,
                  search_relations,
                )
                (e, u.1)
        ]

-- A generator that has not been called yet, and whose database has a name, returns the context of the
-- first unit of its relations, in their order, that has given a host, a user and a password; if there
-- is none it returns an empty one. It counts as complete exactly in the first case.
pub postgresql_call_lem :
    (database config_database : Option String) (relations : List Units) (g : Generator)
    → g.complete ≡ false
    → is_some (either_text database config_database) ≡ true
    → ((postgresql_call database config_database relations g).0
        ≡ elim (first_ready
              (postgresql_context (either_text database config_database))
              (all_units relations))
            as (λ o. Called) [
              | none ↦ returned [] []
              | some rdata ↦
                  returned (postgresql_context (either_text database config_database) rdata) []
            ])
      × ((postgresql_call database config_database relations g).1.complete
          ≡ is_some (
              first_ready
                (postgresql_context (either_text database config_database))
                (all_units relations)))
unfolding postgresql_call
postgresql_call_lem database config_database relations g h name =
    let found =
      search_relations-Finds (postgresql_context (either_text database config_database)) relations g
        h in
    rw (name, sym found.0, postgresql_call) (refl, found.1)

known-Finds :
    (is_ipv6 : String → Bool) (b64decode : String → String) (s : SharedDb) (is_older : Bool)
    → (relations : List Units) (g : Generator) → g.complete ≡ false
    → (search_known is_ipv6 b64decode s is_older relations g).0
      ≡ elim (first_ready (shared_db_context is_ipv6 s is_older) (all_units relations))
          as (λ o. Called) [
            | none ↦ returned [] []
            | some rdata ↦
                db_ssl b64decode rdata (shared_db_context is_ipv6 s is_older rdata) s.ssl_dir
          ]
unfolding search_known
known-Finds is_ipv6 b64decode s is_older relations g h =
    let found = search_relations-Finds (shared_db_context is_ipv6 s is_older) relations g h in
    rw (sym found.0, search_known) refl

unknown_fails :
    (relations : List Units) (g : Generator)
    → (search_unknown relations g).0
      ≡ elim (all_units relations) as (λ l. Called) [ [] ↦ returned [] [] | rdata ∷ units ↦ failed ]
unfolding search_unknown all_units
unknown_fails [] g = refl
unknown_fails ([] ∷ relations) g = unknown_fails relations (record g { related = true })
unknown_fails ((rdata ∷ units) ∷ relations) g = refl

-- An independent account of the call from where the names are there: of a release that is known it is
-- the first unit whose context is complete that counts, and of another the first unit raises.
unfoldable pub expected_call :
    (String → Bool) → (String → String) → SharedDb → Option Bool → Units → Called
expected_call is_ipv6 b64decode s none [] = returned [] []
expected_call is_ipv6 b64decode s none (rdata ∷ units) = failed
expected_call is_ipv6 b64decode s (some is_older) units =
    elim (first_ready (shared_db_context is_ipv6 s is_older) units) [
      | none ↦ returned [] []
      | some rdata ↦ db_ssl b64decode rdata (shared_db_context is_ipv6 s is_older rdata) s.ssl_dir
    ]

-- The context of a shared database, and what it takes to have one: on a generator that has not been
-- called yet, whose database and user have names, and outside the change of a hostname. For a release
-- that is known the call goes on with the first unit of the relations whose context is complete, and
-- with none otherwise; for a release that is not known it fails if there is a unit at all.
pub shared_db_call_lem :
    (is_ipv6 : String → Bool) (b64decode : String → String) (s : SharedDb)
    → (relations : List Units) (g : Generator) → g.complete ≡ false
    → is_some (either_text s.database s.config_database) ≡ true
    → is_some (either_text s.user s.config_user) ≡ true
    → (is_some s.access_network && not (same_text s.set_hostname s.access_hostname)) ≡ false
    → (shared_db_call is_ipv6 b64decode s relations g).0
      ≡ expected_call is_ipv6 b64decode s (before_queens s.release) (all_units relations)
unfolding shared_db_call expected_call
shared_db_call_lem is_ipv6 b64decode s relations g h name user quiet =
    rw (name, user, quiet, shared_db_call) (by_release (before_queens s.release))
  where
    by_units :
        (units : Units)
        → (elim units as (λ l. Called) [ [] ↦ returned [] [] | rdata ∷ units ↦ failed ])
          ≡ expected_call is_ipv6 b64decode s none units
    by_units [] = refl
    by_units (rdata ∷ units) = refl

    by_release :
        (o : Option Bool)
        → (elim o as (λ o. Called × Generator) [
          | none ↦ search_unknown relations g
          | some is_older ↦ search_known is_ipv6 b64decode s is_older relations g
        ]).0
          ≡ expected_call is_ipv6 b64decode s o (all_units relations)
    by_release none = unknown_fails relations g ∙ by_units (all_units relations)
    by_release (some is_older) = known-Finds is_ipv6 b64decode s is_older relations g h
