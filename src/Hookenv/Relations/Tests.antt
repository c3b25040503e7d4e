-- ===== src/Hookenv/Relations/Tests.antt =====
-- charmhelpers/core/hookenv.py: a hook of the unit web/0, and the theorems on its cache.
use charm_helpers.Prelude.{
  String, ◌≡◌, ◌≢◌, refl, ap, List, [], ◌∷◌, Bool, true, false, Option, none, some, lookup, insert,
  Dict, if◌then◌else◌, same_text, same_text_eq, or_else, Bool-cases, inl, inr, is_some, arith,
  eq_iff, some-injective,
}
use mathlib.Core.Bool.{false≢true}
use charm_helpers.Hookenv.Relations.{
  Query, Change, answered, Output, printed, Juju, GetCommand, SetCommand, get_command, set_command,
  relation_get, relation_set, mentions, Cache, given, text_or,
}
use charm_helpers.Hookenv.Relations.Cached.{
  owner, SetsOwn, Op, get_op, set_op, Fresh, run_cached, run_direct, run_cached_lem,
  relation_get-stale,
}

-- One relation: the settings of web/0, and those of its application. Any other has port 22.
abbrev pub State : Type 0
State = Dict (Option String) × Dict (Option String)

abbrev get_tool : State → GetCommand → Output
get_tool s c =
    if same_text c.member (some "web/0")
    then printed (or_else (lookup c.attribute s.0) none)
    else if same_text c.member (some "web")
    then printed (or_else (lookup c.attribute s.1) none)
    else printed (some "22")

abbrev set_all : Dict (Option String) → Dict (Option String) → Dict (Option String)
set_all [] d = d
set_all ((k, v) ∷ settings) d = set_all settings (insert k v d)

abbrev set_tool : State → SetCommand → State
set_tool s c = if c.app then (s.0, set_all c.settings s.1) else (set_all c.settings s.0, s.1)

abbrev juju : Juju
juju = record { State = State; relation_get_tool = get_tool; relation_set_tool = set_tool }

abbrev ask_unit : Query
ask_unit = record { attribute = some "port"; unit = some "web/0"; rid = none; app = none }

abbrev ask_app : Query
ask_app = record { attribute = some "port"; unit = none; rid = none; app = some "web" }

abbrev change : Bool → String → Change
change app port = record {
  relation_id = none;
  relation_settings = [];
  app = app;
  kwargs = ("port", some port) ∷ [];
}

abbrev hook : List Op
hook =
    get_op ask_unit
    ∷ set_op (change false "80")
    ∷ get_op ask_unit
    ∷ set_op (change false "90")
    ∷ get_op ask_unit
    ∷ []

hook_answers :
    run_cached juju "web/0" hook ([], []) []
    ≡ answered none ∷ answered (some "80") ∷ answered (some "90") ∷ []
unfolding run_cached relation_get relation_set
hook_answers = refl

get_tool-others :
    (c : GetCommand) (s t : State)
    → c.member ≢ some "web/0"
    → s.1 ≡ t.1
    → get_tool s c ≡ get_tool t c
get_tool-others c s t other same = elim (Bool-cases (same_text c.member (some "web/0"))) [
  | inl h ↦ absurd (other (same_text_eq c.member (some "web/0") h))
  | inr h ↦ rw (h) (
      ap
        (λ d.
          if same_text c.member (some "web")
          then printed (or_else (lookup c.attribute d) none)
          else printed (some "22"))
        same)
]

member-others :
    (b : Bool) (x : Option String)
    → (if b then x else some "db/0") ≢ some "web/0"
    → (if b then x else none) ≢ some "web/0"
member-others true x h = h
member-others false x h = λ e. false≢true (ap is_some e)

set_tool-own : (s : State) (c : SetCommand) → c.app ≡ false → (set_tool s c).1 ≡ s.1
set_tool-own s c unit =
    ap
      (λ b.
        (if◌then◌else◌ {A = State} b (s.0, set_all c.settings s.1) (set_all c.settings s.0, s.1)).1)
      unit

juju-SetsOwn : SetsOwn juju "web/0" (some "db/0")
unfolding SetsOwn owner get_command set_command
juju-SetsOwn s c q unit other =
    get_tool-others (get_command q) (set_tool s (set_command c)) s
      (member-others (given (text_or q.unit q.app)) (text_or q.unit q.app) other)
      (set_tool-own s (set_command c) unit)

db_other : ◌≢◌ {A = Option String} (some "db/0") (some "web/0")
db_other = λ e. ground (arith, eq_iff "db/0" "web/0", some-injective _ _ e)

fresh : Fresh juju ([], []) []
unfolding Fresh
fresh = tt

run_cached_lem_example : run_cached juju "web/0" hook ([], []) [] ≡ run_direct juju hook ([], [])
run_cached_lem_example =
    run_cached_lem juju "web/0" (some "db/0") hook ([], []) [] juju-SetsOwn db_other
      (tt, (refl, (tt, (refl, (tt, tt))))) fresh

-- The application's port was read before it was set.
abbrev cache : Cache
cache = (ask_app, none) ∷ []

relation_get-stale_example :
    (relation_get juju
      (relation_set juju "web/0" (change true "80") ([], []) cache).0
      ask_app
      (relation_set juju "web/0" (change true "80") ([], []) cache).1).0
    ≡ answered none
unfolding mentions
relation_get-stale_example =
    relation_get-stale juju "web/0" (change true "80") ask_app ([], []) cache none refl refl
