-- ===== src/Retry/Tests.antt =====
-- charmhelpers/core/decorators.py: a function that fails for a while, and the theorems there.
use charm_helpers.Prelude.{ℕ, zero, suc, ◌*◌, ◌≡◌, refl, String, [], ◌∷◌, Bool, true, ltb}
use charm_helpers.Retry.{
  Outcome, returned, raised, is_caught, retry_on_exception, retry_on_predicate,
}
use charm_helpers.Retry.Spent.{Retried, sum_from, retry_on_exception-Retried}

-- the first two calls fail
abbrev flaky : ℕ → Outcome ℕ String
flaky zero = raised "busy"
flaky (suc zero) = raised "busy"
flaky (suc (suc n)) = returned n

abbrev any_error : String → Bool
any_error e = true

sleeps-flaky : (retry_on_exception 3 10 any_error flaky).sleeps ≡ 10 ∷ 20 ∷ []
unfolding retry_on_exception
sleeps-flaky = refl

retry_on_exception-Retried_example :
    Retried
      (is_caught any_error)
      flaky
      (λ k. 10 * sum_from 1 k)
      0
      3
      (retry_on_exception 3 10 any_error flaky)
retry_on_exception-Retried_example = retry_on_exception-Retried 3 10 any_error flaky

abbrev count_up : ℕ → ℕ
count_up n = n

-- With a base of 2 the fourth delay is 48, and not 16.
sleeps-count_up : (retry_on_predicate 4 (ltb 9) 2 count_up).sleeps ≡ 2 ∷ 4 ∷ 12 ∷ 48 ∷ []
unfolding retry_on_predicate
sleeps-count_up = refl
