-- ===== src/Hookenv/Relations.antt =====
-- charmhelpers/core/hookenv.py: `cached`, `flush`, `relation_get` and `relation_set`. Juju's tools are
-- an argument, with what they document.
use charm_helpers.Prelude.{
  String, List, [], ◌∷◌, ◌++◌, Bool, true, false, not, ◌&&◌, ◌||◌, Option, none, some, is_some,
  or_else, str_eq, if◌then◌else◌, any, select, same_text, occurs_in, Dict, insert, ◌≡◌,
}
pub mod Cached
mod Tests

-- the arguments of `relation_get`
pub record Query : Type 0 where
  pub attribute : Option String
  pub unit : Option String
  pub rid : Option String
  pub app : Option String

-- The arguments of `relation_set`, where a setting of `none` is one to remove: `relation_settings`,
-- and the keyword arguments.
pub record Change : Type 0 where
  pub relation_id : Option String
  pub relation_settings : Dict (Option String)
  pub app : Bool
  pub kwargs : Dict (Option String)

-- how `relation-get` ends: with an output, or with an exit code that is 2 or another
pub data Output : Type 0 where
  printed : Option String → Output
  exit_two : Output
  exit_other : Output

-- what `relation_get` does: it answers a value or `None`, or it raises
pub data Answer : Type 0 where
  answered : Option String → Answer
  raised : Answer

-- a text as a condition: `None` and the empty text do not count
abbrev pub given : Option String → Bool
given none = false
given (some s) = not (str_eq s "")

-- `a or b`
abbrev pub text_or : Option String → Option String → Option String
text_or a b = if given a then a else b

-- the command `relation-get`: `--app`, the id after `-r`, the attribute or `-`, and the unit or
-- application at the end
pub record GetCommand : Type 0 where
  pub app : Bool
  pub rid : Option String
  pub attribute : String
  pub member : Option String

unfoldable pub get_command : Query → GetCommand
get_command q = record {
  app = is_some q.app;
  rid = if given q.rid then q.rid else none;
  attribute = or_else (if given q.attribute then q.attribute else none) "-";
  member = if given (text_or q.unit q.app) then text_or q.unit q.app else none;
}

-- the command `relation-set`: `--app`, the id after `-r`, and the settings
pub record SetCommand : Type 0 where
  pub app : Bool
  pub rid : Option String
  pub settings : Dict (Option String)

-- `settings.update(kwargs)`
unfoldable pub merged : Dict (Option String) → Dict (Option String) → Dict (Option String)
merged settings [] = settings
merged settings ((k, v) ∷ kwargs) = merged (insert k v settings) kwargs

unfoldable pub set_command : Change → SetCommand
unfolding merged
set_command c = record {
  app = c.app;
  rid = c.relation_id;
  settings = merged c.relation_settings c.kwargs;
}

-- The tools of juju as this hook sees them, and the state behind them.
pub record Juju : Type 1 where
  pub State : Type 0
  pub relation_get_tool : State → GetCommand → Output
  pub relation_set_tool : State → SetCommand → State

-- the `try` block of `relation_get`
pub answer_of : Output → Answer
answer_of (printed value) = answered value
answer_of exit_two = answered none
answer_of exit_other = raised

-- the body of `relation_get`
unfoldable pub run_relation_get : (juju : Juju) → juju.State → Query → Answer
unfolding get_command answer_of
run_relation_get juju s q =
    if is_some q.app && is_some q.unit
    then raised
    else answer_of (juju.relation_get_tool s (get_command q))

-- the cache, of which a key is the text of the arguments
abbrev pub Cache : Type 0
Cache = List (Query × Option String)

abbrev pub same_query : Query → Query → Bool
same_query q r =
    same_text q.attribute r.attribute
    && same_text q.unit r.unit
    && (same_text q.rid r.rid && same_text q.app r.app)

abbrev pub find_cached : Query → Cache → Option (Option String)
find_cached q [] = none
find_cached q ((r, value) ∷ cache) =
    let rest = find_cached q cache in if same_query r q then some value else rest

-- The wrapper that `cached` makes: an answer is stored, an exception is not.
unfoldable pub relation_get : (juju : Juju) → juju.State → Query → Cache → Answer × Cache
unfolding run_relation_get
relation_get juju s q cache = elim (find_cached q cache) [
  | some value ↦ (answered value, cache)
  | none ↦ elim (run_relation_get juju s q) [
    | answered value ↦ (answered value, (q, value) ∷ cache)
    | raised ↦ (raised, cache)
  ]
]

abbrev pub occurs_in_text : String → Option String → Bool
occurs_in_text key none = false
occurs_in_text key (some s) = occurs_in key s

-- `key in item`, for a key without quotes: it lies in one of the arguments
unfoldable pub mentions : String → Query → Bool
mentions key q =
    occurs_in_text key q.attribute
    || occurs_in_text key q.unit
    || (occurs_in_text key q.rid || occurs_in_text key q.app)

-- `flush`
unfoldable pub flush : String → Cache → Cache
unfolding mentions
flush key cache = select (λ item. not (mentions key item.0)) cache

-- `relation_set`, where `local_unit` is the name of the unit
unfoldable pub relation_set :
    (juju : Juju) → String → Change → juju.State → Cache → juju.State × Cache
unfolding set_command flush
relation_set juju local_unit c s cache =
    (juju.relation_set_tool s (set_command c), flush local_unit cache)
