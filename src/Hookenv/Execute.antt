-- ===== src/Hookenv/Execute.antt =====
-- charmhelpers/core/hookenv.py: `atstart`, `atexit` and `Hooks.execute`, and `ServiceManager.manage`
-- of charmhelpers/core/services/base.py. Callbacks are texts, and what each of them does is an
-- argument; what runs is written to a log.
pub mod Order
use mathlib.Core.List.{reverse}
use charm_helpers.Prelude.{
  ℕ, zero, suc, String, ◌≡◌, refl, ap, sym, ◌∙◌, subst, List, [], ◌∷◌, ◌++◌, map, Bool, true, false,
  Option, none, some, if◌then◌else◌, Dict, lookup, insert,
}

-- How a function ends; the code is that of `SystemExit`.
pub data Ending : Type 0 where
  returns : Ending
  exits : Option ℕ → Ending
  raises : String → Ending

-- A function that a hook runs, or a callback: the callbacks that it hands to `atexit`, and its end.
-- None hands a callback to `atstart`, to which the loop of `_run_atstart` would come as well.
pub record Body : Type 0 where
  pub registers : List String
  pub ending : Ending

pub data Event : Type 0 where
  callback hook : String → Event

pub record Env : Type 0 where
  pub atstart_list : List String
  pub atexit_list : List String
  pub log : List Event

pub atstart : String → Env → Env
atstart c env = record env { atstart_list = env.atstart_list ++ c ∷ [] }

pub atexit : String → Env → Env
atexit c env = record env { atexit_list = env.atexit_list ++ c ∷ [] }

-- a function that is called: it is logged, and hands its callbacks to `atexit`
abbrev pub call : Event → Body → Env → Env
call event b env = record env {
  atexit_list = env.atexit_list ++ b.registers;
  log = env.log ++ event ∷ [];
}

-- the loops of `_run_atstart` and `_run_atexit` over their callbacks, which end at an exception
pub run_callbacks : (String → Body) → List String → Env → Ending × Env
run_callbacks acts [] env = (returns, env)
run_callbacks acts (c ∷ cs) env =
    let rest = run_callbacks acts cs (call (callback c) (acts c) env) in
    elim (acts c).ending [
      | returns ↦ rest
      | exits code ↦ (exits code, call (callback c) (acts c) env)
      | raises e ↦ (raises e, call (callback c) (acts c) env)
    ]

abbrev pub does_return : Ending → Bool
does_return returns = true
does_return (exits code) = false
does_return (raises e) = false

-- `_run_atstart`
pub run_atstart : (String → Body) → Env → Ending × Env
unfolding run_callbacks
run_atstart acts env =
    let (e, env1) = run_callbacks acts env.atstart_list env in
    (e, if does_return e then record env1 { atstart_list = [] } else env1)

-- `_run_atexit`: callbacks that are handed to `atexit` by now are dropped with the list
pub run_atexit : (String → Body) → Env → Ending × Env
unfolding run_callbacks
run_atexit acts env =
    let (e, env1) = run_callbacks acts (reverse env.atexit_list) env in
    (e, if does_return e then record env1 { atexit_list = [] } else env1)

pub run_body : String → Body → Env → Env
run_body name b env = call (hook name) b env

-- `x.code is None or x.code == 0`
abbrev pub is_clean : Option ℕ → Bool
is_clean none = true
is_clean (some zero) = true
is_clean (some (suc n)) = false

-- the end of a handler: its own exception, or the one that it was to raise again
abbrev pub or_else_ends : Ending → Ending × Env → Ending × Env
or_else_ends e (returns, env) = (e, env)
or_else_ends e (exits code, env) = (exits code, env)
or_else_ends e (raises f, env) = (raises f, env)

-- the `try` of `Hooks.execute`, and what follows it
pub finish : (String → Body) → Ending → Env → Ending × Env
unfolding run_atexit
finish acts returns env = run_atexit acts env
finish acts (exits code) env =
    let ended = or_else_ends (exits code) (run_atexit acts env) in
    if is_clean code then ended else (exits code, env)
finish acts (raises e) env = (raises e, env)

-- `Hooks.execute`
unfoldable pub execute : (String → Body) → Dict Body → String → Env → Ending × Env
unfolding run_atstart run_body finish
execute acts hooks name env =
    let (e, env1) = run_atstart acts env in
    elim e [
      | exits code ↦ (exits code, env1)
      | raises f ↦ (raises f, env1)
      | returns ↦ elim (lookup name hooks) [
        | none ↦ (raises "UnregisteredHookError", env1)
        | some b ↦ finish acts b.ending (run_body name b env1)
      ]
    ]

-- `Hooks.hook`: the names given, the function's own, and that with dashes, where there are any
pub decorate : List String → String → Option String → Body → Dict Body → Dict Body
decorate [] own none b hooks = insert own b hooks
decorate [] own (some dashed) b hooks = insert dashed b (insert own b hooks)
decorate (n ∷ names) own dashed b hooks = decorate names own dashed b (insert n b hooks)

-- `_run_atexit` where the run before it has returned
abbrev pub and_atexit : (String → Body) → Ending × Env → Ending × Env
and_atexit acts (returns, env) = run_atexit acts env
and_atexit acts (exits code, env) = (exits code, env)
and_atexit acts (raises e, env) = (raises e, env)

-- the end of `ServiceManager.manage`
pub manage_finish : (String → Body) → Ending → Env → Ending × Env
unfolding run_atexit
manage_finish acts returns env = run_atexit acts env
manage_finish acts (exits code) env =
    let twice = and_atexit acts (run_atexit acts env) in
    let once = run_atexit acts env in if is_clean code then twice else once
manage_finish acts (raises e) env = (raises e, env)

-- `ServiceManager.manage`: the body is the work on the services
unfoldable pub manage : (String → Body) → Body → Env → Ending × Env
unfolding run_atstart run_body manage_finish
manage acts b env =
    let (e, env1) = run_atstart acts env in
    elim e [
      | exits code ↦ (exits code, env1)
      | raises f ↦ (raises f, env1)
      | returns ↦ manage_finish acts b.ending (run_body "manage" b env1)
    ]
