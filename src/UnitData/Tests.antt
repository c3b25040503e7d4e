-- ===== src/UnitData/Tests.antt =====
-- charmhelpers/core/unitdata.py: a hook's writes at concrete keys, and the theorems there.
use mathlib.Core.Bool.{false≢true}
use charm_helpers.Prelude.{
  ℕ, String, str_eq, ◌==◌, if◌then◌else◌, List, ◌≡◌, ◌≢◌, refl, [], ◌∷◌, true, false, none, some,
  some-injective, codes, subst, is_some, Bool, eq_iff, lookup,
}
use charm_helpers.UnitData.{Tables, Storage, get, getrange}
use charm_helpers.UnitData.Like.{no_upper, like, prefix_pattern, drop_text}
use charm_helpers.UnitData.Scope.{
  Op, set_op, unset_prefix_op, fail, exit, perform_all, open_revision, hook_scope, delta, load_all,
}
use charm_helpers.UnitData.Scope.Atomic.{Ended, hook_scope_atomic}
use charm_helpers.UnitData.Plain.{Lower, perform_all-Agrees}
use charm_helpers.UnitData.Shown.{Plain, Shows, replay}
use charm_helpers.UnitData.Scope.Deltas.{expected, delta_exact}

abbrev tables : Tables
tables = record {
  kv = ("config.port", "80") ∷ ("Config_port", "81") ∷ [];
  revisions = [];
  hooks = [];
  sequence = 0;
}

abbrev fresh : Storage
fresh = record {
  work = tables;
  saved = tables;
  keep_revisions = true;
  revision = none;
  closed = false;
}

abbrev scoped : Storage
scoped = record fresh { revision = some 1 }

unchanged : get "config.port" scoped ≢ some "82"
unfolding get
unchanged e = false≢true ((eq_iff "80" "82").1 (some-injective "80" "82" e))

getrange-wildcard : lookup "config.port" (getrange "config_" false fresh) ≡ some "80"
unfolding getrange like prefix_pattern drop_text
getrange-wildcard = refl

hook_scope_atomic_example :
    ((hook_scope "start" "now" (perform_all (set_op "a" "1" ∷ exit ∷ [])) fresh).0
      ≡ (perform_all (set_op "a" "1" ∷ exit ∷ []) (open_revision "start" "now" fresh)).0)
    × Ended tables
        (perform_all (set_op "a" "1" ∷ exit ∷ []) (open_revision "start" "now" fresh)).1.work
        1
        (perform_all (set_op "a" "1" ∷ exit ∷ []) (open_revision "start" "now" fresh)).0
        (hook_scope "start" "now" (perform_all (set_op "a" "1" ∷ exit ∷ [])) fresh).1
hook_scope_atomic_example =
    hook_scope_atomic "start" "now" (set_op "a" "1" ∷ exit ∷ []) fresh refl refl

-- values that are numbers: texts that differ, and stand for the same number
abbrev number : String → ℕ
number text = if str_eq text "80" then 80 else if str_eq text "80.0" then 80 else 0

delta_exact_example :
    lookup "port" (delta number (λ m n. m == n) (("port", 80) ∷ []) "config." fresh)
    ≡ expected
        (λ m n. m == n)
        (lookup "port" (load_all number (getrange "config." true fresh)))
        (some 80)
delta_exact_example =
    delta_exact number (λ m n. m == n) (("port", 80) ∷ []) "config." "port" fresh (refl, tt)

-- a table of keys without capitals, and the map of it
abbrev small : Storage
small = record fresh {
  work = record tables { kv = ("config.port", "80") ∷ ("config.host", "h") ∷ [] };
}

abbrev plain : Plain
plain = λ k. lookup k small.work.kv

small-Shows : Shows small plain
unfolding Shows get
small-Shows = (refl, λ k. refl)

plain-Lower : Lower plain
unfolding Lower
plain-Lower j =
    by_key (str_eq "config.port" j) (str_eq "config.host" j) (λ e. (eq_iff "config.port" j).0 e)
      (λ e. (eq_iff "config.host" j).0 e)
  where
    by_key :
        (a b : Bool)
        → (a ≡ true → "config.port" ≡ j)
        → (b ≡ true → "config.host" ≡ j)
        → is_some {A = String} (if a then some "80" else if b then some "h" else none) ≡ true
        → no_upper (codes j) ≡ true
    by_key true b h k e = subst (λ x. no_upper (codes x) ≡ true) (h refl) refl
    by_key false true h k e = subst (λ x. no_upper (codes x) ≡ true) (k refl) refl
    by_key false false h k e = absurd (false≢true e)

abbrev writes : List Op
writes = set_op "a" "1" ∷ unset_prefix_op "config." ∷ fail ∷ set_op "b" "2" ∷ []

perform_all-Agrees_example :
    ((perform_all writes small).0 ≡ (replay writes plain).0)
    × Shows (perform_all writes small).1 (replay writes plain).1
perform_all-Agrees_example = perform_all-Agrees writes small plain refl plain-Lower small-Shows
