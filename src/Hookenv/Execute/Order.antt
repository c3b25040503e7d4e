-- ===== src/Hookenv/Execute/Order.antt =====
-- charmhelpers/core/hookenv.py, `Hooks.execute`: what runs, in which order, and how it ends.
use mathlib.Core.List.{reverse, append_assoc, append-nil}
use charm_helpers.Prelude.{
  String, ◌≡◌, refl, ap, sym, ◌∙◌, List, [], ◌∷◌, ◌++◌, map, Bool, true, false, Option, none, some,
  if◌then◌else◌, Dict, lookup, subst,
}
use mathlib.Core.Bool.{false≢true}
use charm_helpers.Hookenv.Execute.{
  Ending, returns, exits, raises, Body, Event, callback, hook, Env, call, run_callbacks,
  does_return, run_atstart, run_atexit, run_body, is_clean, or_else_ends, finish, execute,
}

-- The callbacks up to the first that does not return, with it.
pub upto : (String → Body) → List String → List String
upto acts [] = []
upto acts (c ∷ cs) =
    let rest = upto acts cs in c ∷ (if does_return (acts c).ending then rest else [])

-- how the first that does not return ends
pub end_of : (String → Body) → List String → Ending
end_of acts [] = returns
end_of acts (c ∷ cs) =
    let rest = end_of acts cs in if does_return (acts c).ending then rest else (acts c).ending

-- what callbacks hand to `atexit`, all together
pub collected : (String → Body) → List String → List String
collected acts [] = []
collected acts (c ∷ cs) = (acts c).registers ++ collected acts cs

-- What a run of callbacks does: its log, its end, and, if all return, what they handed to `atexit`.
record RunsThrough (acts : String → Body) (cs : List String) (env : Env) (r : Ending × Env)
    : Type 0 where
  log_eq : (r.1).log ≡ env.log ++ map callback (upto acts cs)
  end_eq : r.0 ≡ end_of acts cs
  handed : r.0 ≡ returns → (r.1).atexit_list ≡ env.atexit_list ++ collected acts cs

once_more :
    (acts : String → Body) (c : String) (cs : List String) (env : Env) (r : Ending × Env)
    → (acts c).ending ≡ returns
    → RunsThrough acts cs (call (callback c) (acts c) env) r
    → RunsThrough acts (c ∷ cs) env r
unfolding upto end_of collected
once_more acts c cs env r e run = record {
  log_eq =
      run.log_eq
      ∙ append_assoc env.log (callback c ∷ []) (map callback (upto acts cs))
      ∙ ap (λ b. env.log ++ callback c ∷ map callback (if b then upto acts cs else []))
          (sym (ap does_return e));
  end_eq =
      run.end_eq ∙ ap (λ b. if b then end_of acts cs else (acts c).ending) (sym (ap does_return e));
  handed = λ h. run.handed h ∙ append_assoc env.atexit_list (acts c).registers (collected acts cs);
}

stops :
    (acts : String → Body) (c : String) (cs : List String) (env : Env)
    → does_return (acts c).ending ≡ false
    → RunsThrough acts (c ∷ cs) env ((acts c).ending, call (callback c) (acts c) env)
unfolding upto end_of
stops acts c cs env e = record {
  log_eq = ap (λ b. env.log ++ callback c ∷ map callback (if b then upto acts cs else [])) (sym e);
  end_eq = ap (λ b. if b then end_of acts cs else (acts c).ending) (sym e);
  handed = λ h. absurd (false≢true (sym e ∙ ap does_return h));
}

run_callbacks-RunsThrough :
    (acts : String → Body) (cs : List String) (env : Env)
    → RunsThrough acts cs env (run_callbacks acts cs env)
unfolding run_callbacks upto end_of collected
run_callbacks-RunsThrough acts [] env = record {
  log_eq = sym (append-nil env.log);
  end_eq = refl;
  handed = λ h. sym (append-nil env.atexit_list);
}
run_callbacks-RunsThrough acts (c ∷ cs) env =
    by_end (acts c).ending refl (run_callbacks-RunsThrough acts cs (call (callback c) (acts c) env))
  where
    env1 : Env
    env1 = call (callback c) (acts c) env

    by_end :
        (e : Ending)
        → (acts c).ending ≡ e
        → RunsThrough acts cs env1 (run_callbacks acts cs env1)
        → RunsThrough acts (c ∷ cs) env (elim e as (λ x. Ending × Env) [
          | returns ↦ run_callbacks acts cs env1
          | exits code ↦ (exits code, env1)
          | raises f ↦ (raises f, env1)
        ])
    by_end returns h rest = once_more acts c cs env _ h rest
    by_end (exits code) h rest =
        subst (λ e. RunsThrough acts (c ∷ cs) env (e, env1)) h
          (stops acts c cs env (ap does_return h))
    by_end (raises f) h rest =
        subst (λ e. RunsThrough acts (c ∷ cs) env (e, env1)) h
          (stops acts c cs env (ap does_return h))

abbrev pub succeeds : Ending → Bool
succeeds returns = true
succeeds (exits code) = is_clean code
succeeds (raises e) = false

-- the end of what has ended in one way, and then runs callbacks that may end in another
abbrev pub unless_ended : Ending → Ending → Ending
unless_ended e last = if does_return last then e else last

unless_ended_returns : (e : Ending) → unless_ended returns e ≡ e
unless_ended_returns returns = refl
unless_ended_returns (exits code) = refl
unless_ended_returns (raises f) = refl

run_atexit_ran :
    (acts : String → Body) (env : Env)
    → ((run_atexit acts env).1.log ≡ env.log ++ map callback (upto acts (reverse env.atexit_list)))
      × ((run_atexit acts env).0 ≡ end_of acts (reverse env.atexit_list))
unfolding run_atexit
run_atexit_ran acts env = (either (does_return r.0) ∙ through.log_eq, through.end_eq)
  where
    r : Ending × Env
    r = run_callbacks acts (reverse env.atexit_list) env

    through : RunsThrough acts (reverse env.atexit_list) env r
    through = run_callbacks-RunsThrough acts (reverse env.atexit_list) env

    either : (b : Bool) → (if b then record r.1 { atexit_list = [] } else r.1).log ≡ (r.1).log
    either true = refl
    either false = refl

or_else_ends_eq :
    (e : Ending) (r : Ending × Env)
    → ((or_else_ends e r).1.log ≡ r.1.log) × ((or_else_ends e r).0 ≡ unless_ended e r.0)
or_else_ends_eq e (returns, env) = (refl, refl)
or_else_ends_eq e (exits code, env) = (refl, refl)
or_else_ends_eq e (raises f, env) = (refl, refl)

-- what `finish` adds to the log, and how it ends
Finishes : (String → Body) → Ending → Env → Ending × Env → Type 0
Finishes acts e env r =
    (r.1.log
      ≡ env.log ++ (if succeeds e then map callback (upto acts (reverse env.atexit_list)) else []))
    × (r.0 ≡ (if succeeds e then unless_ended e (end_of acts (reverse env.atexit_list)) else e))

finish-Finishes :
    (acts : String → Body) (e : Ending) (env : Env) → Finishes acts e env (finish acts e env)
unfolding finish Finishes
finish-Finishes acts returns env =
    let ran = run_atexit_ran acts env in
    (ran.0, ran.1 ∙ sym (unless_ended_returns (end_of acts (reverse env.atexit_list))))
finish-Finishes acts (exits code) env = by_code (is_clean code)
  where
    ran :
        ((run_atexit acts env).1.log
          ≡ env.log ++ map callback (upto acts (reverse env.atexit_list)))
        × ((run_atexit acts env).0 ≡ end_of acts (reverse env.atexit_list))
    ran = run_atexit_ran acts env

    ended : Ending × Env
    ended = or_else_ends (exits code) (run_atexit acts env)

    by_code :
        (b : Bool)
        → ((if b then ended else (exits code, env)).1.log
            ≡ env.log ++ (if b then map callback (upto acts (reverse env.atexit_list)) else []))
          × ((if b then ended else (exits code, env)).0 ≡ (
              if b
              then unless_ended (exits code) (end_of acts (reverse env.atexit_list))
              else exits code))
    by_code true =
        let either = or_else_ends_eq (exits code) (run_atexit acts env) in
        (either.0 ∙ ran.0, either.1 ∙ ap (unless_ended (exits code)) ran.1)
    by_code false = (sym (append-nil env.log), refl)
finish-Finishes acts (raises f) env = (sym (append-nil env.log), refl)

-- The callbacks for the end: those that were there, those that the callbacks of the start hand over,
-- and those of the function, in reverse order.
pub at_end : (String → Body) → Body → Env → List String
at_end acts b env = reverse ((env.atexit_list ++ collected acts env.atstart_list) ++ b.registers)

-- what a run is to write to the log, and how it is to end
pub full_log : (String → Body) → String → Body → Env → List Event
unfolding at_end
full_log acts name b env =
    map callback (upto acts env.atstart_list)
    ++ (if does_return (end_of acts env.atstart_list)
        then hook name
          ∷ (if succeeds b.ending then map callback (upto acts (at_end acts b env)) else [])
        else [])

pub full_end : (String → Body) → Body → Env → Ending
unfolding at_end
full_end acts b env =
    if does_return (end_of acts env.atstart_list)
    then if succeeds b.ending
      then unless_ended b.ending (end_of acts (at_end acts b env))
      else b.ending
    else end_of acts env.atstart_list

-- a run of the hook `b`: what it adds to the log, and how it ends
IsFull : (String → Body) → String → Body → Env → Ending × Env → Type 0
IsFull acts name b env r =
    (r.1.log ≡ env.log ++ full_log acts name b env) × (r.0 ≡ full_end acts b env)

-- the start ends the run
stopped-IsFull :
    (acts : String → Body) (name : String) (b : Body) (env : Env) (e : Ending) (env1 : Env)
    → does_return e ≡ false
    → RunsThrough acts env.atstart_list env (e, env1)
    → IsFull acts name b env (e, env1)
unfolding full_log full_end IsFull
stopped-IsFull acts name b env e env1 stopped through =
    let no : does_return (end_of acts env.atstart_list) ≡ false =
      ap does_return (sym through.end_eq) ∙ stopped in
    rw (no) (
      through.log_eq
          ∙ ap (λ l. env.log ++ l) (sym (append-nil (map callback (upto acts env.atstart_list)))),
      through.end_eq,
    )

-- the start returns, and the function runs
finish-IsFull :
    (acts : String → Body) (name : String) (b : Body) (env env1 : Env)
    → RunsThrough acts env.atstart_list env (returns, env1)
    → IsFull acts name b env
        (finish acts b.ending (run_body name b (record env1 { atstart_list = [] })))
unfolding run_body full_log full_end at_end Finishes IsFull
finish-IsFull acts name b env env1 through =
    let ok : does_return (end_of acts env.atstart_list) ≡ true =
      ap does_return (sym through.end_eq) in
    let fin = finish-Finishes acts b.ending (run_body name b (record env1 { atstart_list = [] })) in
    let handed : env1.atexit_list ++ b.registers ≡ handed_over =
      ap (λ l. l ++ b.registers) (through.handed refl) in
    rw (ok) (
      fin.0
          ∙ ap (λ l. (env1.log ++ hook name ∷ []) ++ logged l) handed
          ∙ ap (λ l. (l ++ hook name ∷ []) ++ logged handed_over) through.log_eq
          ∙ append_assoc (env.log ++ map callback (upto acts env.atstart_list)) (hook name ∷ [])
              (logged handed_over)
          ∙ append_assoc env.log (map callback (upto acts env.atstart_list))
              (hook name ∷ logged handed_over),
      fin.1
          ∙ ap
              (λ l.
                if succeeds b.ending
                then unless_ended b.ending (end_of acts (reverse l))
                else b.ending)
              handed,
    )
  where
    handed_over : List String
    handed_over = (env.atexit_list ++ collected acts env.atstart_list) ++ b.registers

    logged : List String → List Event
    logged l = if succeeds b.ending then map callback (upto acts (reverse l)) else []

-- For functions and callbacks that may add callbacks for the end, but none for the start, and may
-- exit or raise: a registered hook runs the callbacks of the start in the order they were added, up
-- to the first that does not return. If all return it runs its function, and then, exactly if the
-- function returned or exited with no code or zero, the callbacks for the end in reverse order, up to
-- the first that does not return: those that were there, and those that the callbacks of the start
-- and the function have added. It ends as the callback that does not return, if there is one, and as
-- its function otherwise.
pub execute_log :
    (acts : String → Body) (hooks : Dict Body) (name : String) (b : Body) (env : Env)
    → lookup name hooks ≡ some b
    → ((execute acts hooks name env).1.log ≡ env.log ++ full_log acts name b env)
      × ((execute acts hooks name env).0 ≡ full_end acts b env)
unfolding execute run_atstart IsFull
execute_log acts hooks name b env found =
    by_start (run_callbacks acts env.atstart_list env)
      (run_callbacks-RunsThrough acts env.atstart_list env)
  where
    started : Ending × Env → Env
    started r = if does_return r.0 then record r.1 { atstart_list = [] } else r.1

    next : Option Body → Ending × Env → Ending × Env
    next o r = elim r.0 as (λ x. Ending × Env) [
      | exits code ↦ (exits code, started r)
      | raises f ↦ (raises f, started r)
      | returns ↦ elim o as (λ x. Ending × Env) [
        | none ↦ (raises "UnregisteredHookError", started r)
        | some c ↦ finish acts c.ending (run_body name c (started r))
      ]
    ]

    by_start :
        (r : Ending × Env)
        → RunsThrough acts env.atstart_list env r
        → IsFull acts name b env (next (lookup name hooks) r)
    by_start (exits code, env1) through =
        stopped-IsFull acts name b env (exits code) env1 refl through
    by_start (raises f, env1) through = stopped-IsFull acts name b env (raises f) env1 refl through
    by_start (returns, env1) through =
        subst (λ o. IsFull acts name b env (next o (returns, env1))) (sym found)
          (finish-IsFull acts name b env env1 through)
