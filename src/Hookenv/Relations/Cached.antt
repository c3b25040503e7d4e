-- ===== src/Hookenv/Relations/Cached.antt =====
-- The cache of `relation_get` in charmhelpers/core/hookenv.py: what it hides and what it does not.
use charm_helpers.Prelude.{
  String, ◌≡◌, ◌≢◌, refl, sym, ap, ap₂, ◌∙◌, List, [], ◌∷◌, Bool, true, false, ◌&&◌, Option, none,
  some, some-injective, is_some, if◌then◌else◌, All, same_text_eq, if_cases, occurs_in_refl, arith,
  Bool-cases, Option-cases, inl, inr,
}
use mathlib.Core.Bool.{false≢true}
use charm_helpers.Hookenv.Relations.{
  Query, Change, Answer, answered, raised, answer_of, Juju, Cache, given, text_or, get_command,
  set_command, run_relation_get, same_query, find_cached, relation_get, occurs_in_text, mentions,
  flush, relation_set,
}

-- whose settings a query reads: those of the unit or application that it names, or of the remote unit
unfoldable pub owner : Option String → Query → Option String
owner remote_unit q = if given (text_or q.unit q.app) then text_or q.unit q.app else remote_unit

-- What juju documents: `relation-set` without `--app` changes the settings of the local unit, and so
-- no answer on those of another.
unfoldable pub SetsOwn : Juju → String → Option String → Type 0
SetsOwn juju local_unit remote_unit =
    (s : juju.State) (c : Change) (q : Query)
    → c.app ≡ false
    → owner remote_unit q ≢ some local_unit
    → juju.relation_get_tool (juju.relation_set_tool s (set_command c)) (get_command q)
      ≡ juju.relation_get_tool s (get_command q)

occurs_of_eq : (key : String) (a : Option String) → a ≡ some key → occurs_in_text key a ≡ true
occurs_of_eq key a e = ap (occurs_in_text key) e ∙ occurs_in_refl key

owner-mentions :
    (local_unit : String) (remote_unit : Option String) (q : Query)
    → remote_unit ≢ some local_unit
    → owner remote_unit q ≡ some local_unit
    → mentions local_unit q ≡ true
unfolding owner mentions
owner-mentions local_unit remote_unit q ne e =
    elim (if_cases (given (text_or q.unit q.app)) (text_or q.unit q.app) remote_unit) [
      | inr h ↦ absurd (ne (sym h ∙ e))
      | inl h ↦ elim (if_cases (given q.unit) q.unit q.app) [
        | inl k ↦ ground (arith, occurs_of_eq local_unit q.unit (sym k ∙ (sym h ∙ e)))
        | inr k ↦ ground (arith, occurs_of_eq local_unit q.app (sym k ∙ (sym h ∙ e)))
      ]
    ]

same_query_eq : (q r : Query) → same_query q r ≡ true → q ≡ r
same_query_eq q r h =
    let a : q.attribute ≡ r.attribute = same_text_eq q.attribute r.attribute (ground arith) in
    let b : q.unit ≡ r.unit = same_text_eq q.unit r.unit (ground arith) in
    let c : q.rid ≡ r.rid = same_text_eq q.rid r.rid (ground arith) in
    let d : q.app ≡ r.app = same_text_eq q.app r.app (ground arith) in cc

-- What is in the cache is what `relation_get` would answer without it.
unfoldable pub Fresh : (juju : Juju) → juju.State → Cache → Type 0
Fresh juju s cache = All (λ item. run_relation_get juju s item.0 ≡ answered item.1) cache

Fresh-find_cached :
    (juju : Juju) (s : juju.State) (q : Query) (cache : Cache) (value : Option String)
    → Fresh juju s cache
    → find_cached q cache ≡ some value
    → run_relation_get juju s q ≡ answered value
unfolding Fresh
Fresh-find_cached juju s q [] value h e = ground arith
Fresh-find_cached juju s q ((r, v) ∷ cache) value h e =
    either (same_query r q) refl e (Fresh-find_cached juju s q cache value h.1)
  where
    either :
        (b : Bool)
        → same_query r q ≡ b
        → (if b then some v else find_cached q cache) ≡ some value
        → (find_cached q cache ≡ some value → run_relation_get juju s q ≡ answered value)
        → run_relation_get juju s q ≡ answered value
    either false k e rest = rest e
    either true k e rest =
        ap (run_relation_get juju s) (sym (same_query_eq r q k))
        ∙ (h.0 ∙ ap answered (some-injective _ _ e))

-- the cached call answers what the call itself would, and keeps the cache fresh
relation_get-Fresh :
    (juju : Juju) (s : juju.State) (q : Query) (cache : Cache)
    → Fresh juju s cache
    → ((relation_get juju s q cache).0 ≡ run_relation_get juju s q)
      × Fresh juju s (relation_get juju s q cache).1
unfolding relation_get Fresh
relation_get-Fresh juju s q cache h = elim (Option-cases (find_cached q cache)) [
  | inl e ↦ missed e (run_relation_get juju s q) refl
  | inr (value, e) ↦ rw (e, relation_get) (sym (Fresh-find_cached juju s q cache value h e), h)
]
  where
    missed :
        find_cached q cache ≡ none
        → (a : Answer) → run_relation_get juju s q ≡ a
        → ((relation_get juju s q cache).0 ≡ run_relation_get juju s q)
          × Fresh juju s (relation_get juju s q cache).1
    missed e (answered value) k = rw (e, relation_get, k) (refl, (k, h))
    missed e raised k = rw (e, relation_get, k) (refl, h)

relation_set-Fresh :
    (juju : Juju) (local_unit : String) (remote_unit : Option String)
    → (c : Change) (s : juju.State) (cache : Cache) → SetsOwn juju local_unit remote_unit
    → remote_unit ≢ some local_unit
    → c.app ≡ false
    → Fresh juju s cache
    → Fresh juju
        (relation_set juju local_unit c s cache).0
        (relation_set juju local_unit c s cache).1
unfolding relation_set flush Fresh SetsOwn run_relation_get
relation_set-Fresh juju local_unit remote_unit c s [] own ne unit h = tt
relation_set-Fresh juju local_unit remote_unit c s ((q, value) ∷ cache) own ne unit h =
    elim (Bool-cases (mentions local_unit q)) [
      | inl m ↦ rw (m) (relation_set-Fresh juju local_unit remote_unit c s cache own ne unit h.1)
      | inr m ↦ rw (m) (
        ap (λ out. if is_some q.app && is_some q.unit then raised else answer_of out)
              (own s c q unit (λ o. ground (arith, owner-mentions local_unit remote_unit q ne o)))
            ∙ h.0,
        relation_set-Fresh juju local_unit remote_unit c s cache own ne unit h.1,
      )
    ]

-- what a hook does with the settings of its relations
pub data Op : Type 0 where
  get_op : Query → Op
  set_op : Change → Op

-- the answers of a hook's reads, and those of the same reads without a cache
unfoldable pub run_cached : (juju : Juju) → String → List Op → juju.State → Cache → List Answer
run_cached juju local_unit [] s cache = []
run_cached juju local_unit (get_op q ∷ ops) s cache =
    let (answer, cache1) = relation_get juju s q cache in
    answer ∷ run_cached juju local_unit ops s cache1
run_cached juju local_unit (set_op c ∷ ops) s cache =
    let (s1, cache1) = relation_set juju local_unit c s cache in
    run_cached juju local_unit ops s1 cache1

unfoldable pub run_direct : (juju : Juju) → List Op → juju.State → List Answer
run_direct juju [] s = []
run_direct juju (get_op q ∷ ops) s = run_relation_get juju s q ∷ run_direct juju ops s
run_direct juju (set_op c ∷ ops) s = run_direct juju ops (juju.relation_set_tool s (set_command c))

-- The operation does not set the settings of an application.
abbrev pub OfUnit : Op → Type 0
OfUnit (get_op q) = Unit
OfUnit (set_op c) = c.app ≡ false

-- A hook whose remote unit is another than its own, and that sets no settings of an application,
-- reads with the cache what it would read without it.
pub run_cached_lem :
    (juju : Juju) (local_unit : String) (remote_unit : Option String)
    → (ops : List Op) (s : juju.State) (cache : Cache) → SetsOwn juju local_unit remote_unit
    → remote_unit ≢ some local_unit
    → All OfUnit ops
    → Fresh juju s cache
    → run_cached juju local_unit ops s cache ≡ run_direct juju ops s
unfolding run_cached run_direct relation_set
run_cached_lem juju local_unit remote_unit [] s cache own ne unit h = refl
run_cached_lem juju local_unit remote_unit (get_op q ∷ ops) s cache own ne unit h =
    ap₂ (λ a rest. a ∷ rest) (relation_get-Fresh juju s q cache h).0
      (run_cached_lem juju local_unit remote_unit ops s (relation_get juju s q cache).1 own ne
        unit.1 (relation_get-Fresh juju s q cache h).1)
run_cached_lem juju local_unit remote_unit (set_op c ∷ ops) s cache own ne unit h =
    run_cached_lem juju local_unit remote_unit ops _ _ own ne unit.1
      (relation_set-Fresh juju local_unit remote_unit c s cache own ne unit.0 h)

find_cached-flush :
    (key : String) (q : Query) (cache : Cache)
    → mentions key q ≡ false
    → find_cached q (flush key cache) ≡ find_cached q cache
unfolding flush
find_cached-flush key q [] h = refl
find_cached-flush key q ((r, v) ∷ cache) h = elim (Bool-cases (mentions key r)) [
  | inr m ↦
      rw (m)
        (ap (λ rest. if same_query r q then some v else rest) (find_cached-flush key q cache h))
  | inl m ↦ elim (Bool-cases (same_query r q)) [
    | inl k ↦ absurd (false≢true (sym h ∙ (ap (mentions key) (sym (same_query_eq r q k)) ∙ m)))
    | inr k ↦ rw (m) (
        find_cached-flush key q cache h
        ∙ ap (λ b. if b then some v else find_cached q cache) (sym k))
  ]
]

-- An answer in the cache whose arguments do not name the unit is given again after `relation_set`,
-- whatever that has set: the settings of an application are read as they were before.
pub relation_get-stale :
    (juju : Juju) (local_unit : String) (c : Change) (q : Query) (s : juju.State) (cache : Cache)
    → (value : Option String) → mentions local_unit q ≡ false
    → find_cached q cache ≡ some value
    → (relation_get juju
        (relation_set juju local_unit c s cache).0
        q
        (relation_set juju local_unit c s cache).1).0
      ≡ answered value
unfolding relation_get relation_set
relation_get-stale juju local_unit c q s cache value h e =
    rw (find_cached-flush local_unit q cache h ∙ e, relation_get) refl
