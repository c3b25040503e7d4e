-- ===== src/Deferred/Events/Cleared.antt =====
-- charmhelpers/contrib/openstack/deferred_events.py: which events `check_restart_timestamps` clears.
use charm_helpers.Prelude.{
  ℕ, String, ◌≡◌, refl, ap, ◌∙◌, List, [], ◌∷◌, Bool, true, false, not, ◌&&◌, ◌||◌, Option, arith,
  str_eq, if◌then◌else◌, select, elem, leb, some, none, Bool-cases, inl, inr,
}
use charm_helpers.Deferred.Events.{
  ServiceEvent, Files, clear_deferred_restarts, get_deferred_restarts, still_required, check_each,
  check_restart_timestamps,
}

-- An independent description of a restart that counts as made good: the service has started at the
-- time of the request or later, or systemd gives no start for it, as for one that never started.
pub counts_as_done : Option ℕ → ℕ → Bool
counts_as_done none requested = true
counts_as_done (some started) requested = leb requested started

counts_as_done_eq :
    (start : Option ℕ) (requested : ℕ)
    → not (still_required start requested) ≡ counts_as_done start requested
unfolding counts_as_done
counts_as_done_eq none requested = refl
counts_as_done_eq (some started) requested = ground arith

-- one of the restarts is of the service and counts as made good
pub any_done : (String → Option ℕ) → String → List ServiceEvent → Bool
any_done start_time service [] = false
any_done start_time service (e ∷ es) =
    (str_eq service e.service && counts_as_done (start_time e.service) e.timestamp)
    || any_done start_time service es

select-select :
    {A : Type 0} (p q r : A → Bool) (xs : List A)
    → ((x : A) → (q x && p x) ≡ r x)
    → select p (select q xs) ≡ select r xs
select-select p q r [] h = refl
select-select p q r (x ∷ xs) h = ground (arith, select-select p q r xs h, h x)

select-cong :
    {A : Type 0} (p q : A → Bool) (xs : List A) → ((x : A) → p x ≡ q x) → select p xs ≡ select q xs
select-cong p q [] h = refl
select-cong p q (x ∷ xs) h = ground (arith, select-cong p q xs h, h x)

select-All : {A : Type 0} (xs : List A) → xs ≡ select (λ _. true) xs
select-All [] = refl
select-All (x ∷ xs) = ap (λ ys. x ∷ ys) (select-All xs)

-- The files that are left are those whose service has no restart among the events that is done.
check_each-select :
    (start_time : String → Option ℕ) (es : List ServiceEvent) (files : Files)
    → check_each start_time es files
      ≡ select (λ f. not (any_done start_time (f.1).service es)) files
unfolding check_each any_done clear_deferred_restarts
check_each-select start_time [] files = select-All files
check_each-select start_time (e ∷ es) files =
    elim (Bool-cases (still_required (start_time e.service) e.timestamp)) [
      | inl h ↦
          ap (λ b. check_each start_time es (if b then files else cleared)) h
          ∙ check_each-select start_time es files
          ∙ select-cong (λ f. not (any_done start_time (f.1).service es))
              (λ f. not (any_done start_time (f.1).service (e ∷ es))) files
              (λ f. ground (arith, h, done))
      | inr h ↦
          ap (λ b. check_each start_time es (if b then files else cleared)) h
          ∙ check_each-select start_time es cleared
          ∙ select-select (λ f. not (any_done start_time (f.1).service es))
              (λ f. not (elem (f.1).service (e.service ∷ [])))
              (λ f. not (any_done start_time (f.1).service (e ∷ es))) files
              (λ f. ground (arith, h, done))
    ]
  where
    done :
        not (still_required (start_time e.service) e.timestamp)
        ≡ counts_as_done (start_time e.service) e.timestamp
    done = counts_as_done_eq (start_time e.service) e.timestamp

    cleared : Files
    cleared = clear_deferred_restarts (e.service ∷ []) files

-- `check_restart_timestamps` leaves exactly the files whose service has no deferred restart of this
-- application that counts as made good: the service started at the time of the request or later, or
-- has no start time at all, as where it never started. One such restart is enough to clear every file
-- of the service: a restart that was asked for after the service started is cleared too, and so are
-- other actions and the events of other applications.
pub check_restart_timestamps_lem :
    (app : String) (start_time : String → Option ℕ) (files : Files)
    → check_restart_timestamps app start_time files
      ≡ select
          (λ f. not (any_done start_time (f.1).service (get_deferred_restarts app files)))
          files
unfolding check_restart_timestamps
check_restart_timestamps_lem app start_time files =
    check_each-select start_time (get_deferred_restarts app files) files
