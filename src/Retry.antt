-- ===== src/Retry.antt =====
-- charmhelpers/core/decorators.py: `retry_on_exception` and `retry_on_predicate`. The decorated
-- function is given by what it does at each call: `f n` is its result at the call after the first
-- `n`. The counts of retries are natural numbers.
use charm_helpers.Prelude.{ℕ, zero, suc, ◌*◌, List, [], ◌∷◌, Bool, false, ◌==◌, if◌then◌else◌}
mod Spent
mod Tests

pub data Outcome {ℓ κ} (A : Type ℓ) (E : Type κ) : Type (ℓ ⊔ κ) where
  returned : A → Outcome A E
  raised : E → Outcome A E

-- What a run comes to, the calls it made, and the seconds of each `time.sleep`.
pub record Run {ℓ} (R : Type ℓ) : Type ℓ where
  pub result : R
  pub calls : ℕ
  pub sleeps : List ℕ

-- `if delay: time.sleep(delay)`, before the rest of the run
pub sleep_then {ℓ} : {R : Type ℓ} → ℕ → Run R → Run R
sleep_then delay run = record {
  result = run.result;
  calls = run.calls;
  sleeps = if delay == 0 then run.sleeps else delay ∷ run.sleeps;
}

module _ {ℓ κ} {A : Type ℓ} {E : Type κ} where
  -- `except exc_type`
  abbrev pub is_caught : (E → Bool) → Outcome A E → Bool
  is_caught catches (returned a) = false
  is_caught catches (raised e) = catches e

  -- the loop of `retry_on_exception`, after `n` calls
  pub exception_loop : (E → Bool) → (ℕ → Outcome A E) → ℕ → ℕ → ℕ → ℕ → Run (Outcome A E)
  unfolding sleep_then
  exception_loop catches f base n multiplier zero = record {
    result = f n;
    calls = suc n;
    sleeps = [];
  }
  exception_loop catches f base n multiplier (suc retries) =
      let rest = exception_loop catches f base (suc n) (suc multiplier) retries in
      if is_caught catches (f n)
      then sleep_then (base * multiplier) rest
      else record { result = f n; calls = suc n; sleeps = [] }

  pub retry_on_exception : ℕ → ℕ → (E → Bool) → (ℕ → Outcome A E) → Run (Outcome A E)
  unfolding exception_loop
  retry_on_exception num_retries base_delay catches f =
      exception_loop catches f base_delay 0 1 num_retries

module _ {ℓ} {A : Type ℓ} where
  -- the loop of `retry_on_predicate`, after `n` calls
  pub predicate_loop : (A → Bool) → (ℕ → A) → ℕ → ℕ → ℕ → ℕ → Run A
  unfolding sleep_then
  predicate_loop accepts f delay n multiplier zero = record {
    result = f n;
    calls = suc n;
    sleeps = [];
  }
  predicate_loop accepts f delay n multiplier (suc retries) =
      let rest = predicate_loop accepts f (delay * multiplier) (suc n) (suc multiplier) retries in
      if accepts (f n)
      then record { result = f n; calls = suc n; sleeps = [] }
      else sleep_then (delay * multiplier) rest

  pub retry_on_predicate : ℕ → (A → Bool) → ℕ → (ℕ → A) → Run A
  unfolding predicate_loop
  retry_on_predicate num_retries predicate_fun base_delay f =
      predicate_loop predicate_fun f base_delay 0 1 num_retries
