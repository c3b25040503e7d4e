-- ===== src/Retry/Spent.antt =====
-- charmhelpers/core/decorators.py: how often the two decorators call the function, what they hand
-- back and how long they sleep.
use native.Mathlib.Nat.{mul-add, mul_assoc, mul-zero}
use mathlib.Core.Bool.{false≢true, not}
use charm_helpers.Prelude.{
  ℕ, zero, suc, ◌+◌, ◌*◌, ◌≤◌, ◌<◌, ◌≡◌, refl, List, [], ◌∷◌, Bool, true, arith, Bool-cases, inl,
  inr, ap, sym, subst, ◌∙◌,
}
use charm_helpers.Retry.{
  Outcome, Run, sleep_then, is_caught, exception_loop, retry_on_exception, predicate_loop,
  retry_on_predicate,
}

abbrev pub sum : List ℕ → ℕ
sum [] = 0
sum (n ∷ ns) = n + sum ns

sum-sleep_then {ℓ} :
    {R : Type ℓ} (delay : ℕ) (run : Run R)
    → sum (sleep_then delay run).sleeps ≡ delay + sum run.sleeps
unfolding sleep_then
sum-sleep_then zero run = omega arith
sum-sleep_then (suc d) run = ground arith

-- `m + (m + 1) + …`, with `k` terms
pub sum_from : ℕ → ℕ → ℕ
sum_from m zero = 0
sum_from m (suc k) = m + sum_from (suc m) k

-- `m + m * (m + 1) + …`, with `k` terms: from one, the sum of the first factorials
pub products_from : ℕ → ℕ → ℕ
products_from m zero = 0
products_from m (suc k) = m + m * products_from (suc m) k

-- A run that stopped after `k` retries, of at most `retries`: `again` says of each call whether
-- another one is wanted, and `slept` is the time the retries took.
pub record Retried {ℓ} {R : Type ℓ} (again : R → Bool) (f : ℕ → R) (slept : ℕ → ℕ) (n retries : ℕ)
    (run : Run R) : Type ℓ where
  pub k : ℕ
  pub within : k ≤ retries
  pub calls_eq : run.calls ≡ n + suc k
  pub result_eq : run.result ≡ f (n + k)
  pub wanted : (i : ℕ) → i < k → again (f (n + i)) ≡ true
  pub exhausted : again (f (n + k)) ≡ true → k ≡ retries
  pub slept_eq : sum run.sleeps ≡ slept k

-- One more call before a run that was counted from the next one on.
Retried-once_more {ℓ} :
    {R : Type ℓ} (again : R → Bool) (f : ℕ → R) (slept slept' : ℕ → ℕ) (n retries delay : ℕ)
    (run : Run R)
    → again (f n) ≡ true
    → ((k : ℕ) → slept' (suc k) ≡ delay + slept k)
    → Retried again f slept (suc n) retries run
    → Retried again f slept' n (suc retries) (sleep_then delay run)
unfolding sleep_then
Retried-once_more again f slept slept' n retries delay run h e r = record {
  k = suc r.k;
  within = ground (arith, r.within);
  calls_eq = ground (arith, r.calls_eq);
  result_eq = r.result_eq ∙ ap f (omega arith);
  wanted = earlier r.wanted;
  exhausted = λ more. ap suc (r.exhausted (subst (λ i. again (f i) ≡ true) (omega arith) more));
  slept_eq = sum-sleep_then delay run ∙ ground (arith, e r.k, r.slept_eq);
}
  where
    earlier :
        ((i : ℕ) → i < r.k → again (f (suc n + i)) ≡ true)
        → (i : ℕ) → i < suc r.k
        → again (f (n + i)) ≡ true
    earlier before zero lt = subst (λ i. again (f i) ≡ true) (omega arith) h
    earlier before (suc i) lt =
        subst (λ j. again (f j) ≡ true) (omega arith) (before i (omega (arith, lt)))

none_below : (i : ℕ) → ¬ (i < 0)
none_below i = omega arith

Retried-at_once {ℓ} :
    {R : Type ℓ} (again : R → Bool) (f : ℕ → R) (slept : ℕ → ℕ) (n retries : ℕ)
    → (again (f n) ≡ true → retries ≡ 0)
    → slept 0 ≡ 0
    → Retried again f slept n retries (record { result = f n; calls = suc n; sleeps = [] })
Retried-at_once again f slept n retries h e = record {
  k = 0;
  within = omega arith;
  calls_eq = omega arith;
  result_eq = ap f (omega arith);
  wanted = λ i lt. absurd (none_below i lt);
  exhausted = λ more. sym (h (subst (λ i. again (f i) ≡ true) (omega arith) more));
  slept_eq = sym e;
}

module _ {ℓ κ} {A : Type ℓ} {E : Type κ} (catches : E → Bool) (f : ℕ → Outcome A E) (base : ℕ) where
  exception_loop-Retried :
      (n m retries : ℕ)
      → Retried
          (is_caught catches)
          f
          (λ k. base * sum_from m k)
          n
          retries
          (exception_loop catches f base n m retries)
  unfolding exception_loop sum_from
  exception_loop-Retried n m zero =
      Retried-at_once (is_caught catches) f (λ k. base * sum_from m k) n 0 (λ _. refl)
        (mul-zero base)
  exception_loop-Retried n m (suc retries) = elim (Bool-cases (is_caught catches (f n))) [
    | inl h ↦
        rw (h, exception_loop)
          (Retried-once_more (is_caught catches) f (λ k. base * sum_from (suc m) k)
            (λ k. base * sum_from m k) n retries (base * m)
            (exception_loop catches f base (suc n) (suc m) retries) h
            (λ k. mul-add base m (sum_from (suc m) k))
            (exception_loop-Retried (suc n) (suc m) retries))
    | inr h ↦
        rw (h, exception_loop)
          (Retried-at_once (is_caught catches) f (λ k. base * sum_from m k) n (suc retries)
            (λ e. absurd (false≢true (sym h ∙ e))) (mul-zero base))
  ]

module _ {ℓ} {A : Type ℓ} (accepts : A → Bool) (f : ℕ → A) where
  predicate_loop-Retried :
      (delay n m retries : ℕ)
      → Retried
          (λ a. not (accepts a))
          f
          (λ k. delay * products_from m k)
          n
          retries
          (predicate_loop accepts f delay n m retries)
  unfolding predicate_loop products_from
  predicate_loop-Retried delay n m zero =
      Retried-at_once (λ a. not (accepts a)) f (λ k. delay * products_from m k) n 0 (λ _. refl)
        (mul-zero delay)
  predicate_loop-Retried delay n m (suc retries) = elim (Bool-cases (accepts (f n))) [
    | inl h ↦
        rw (h, predicate_loop)
          (Retried-at_once (λ a. not (accepts a)) f (λ k. delay * products_from m k) n (suc retries)
            (λ e. absurd (false≢true (sym (ap not h) ∙ e))) (mul-zero delay))
    | inr h ↦
        rw (h, predicate_loop)
          (Retried-once_more (λ a. not (accepts a)) f (λ k. delay * m * products_from (suc m) k)
            (λ k. delay * products_from m k) n retries (delay * m)
            (predicate_loop accepts f (delay * m) (suc n) (suc m) retries) (ap not h)
            (λ k.
              mul-add delay m (m * products_from (suc m) k)
              ∙ ap (λ x. delay * m + x) (sym (mul_assoc delay m (products_from (suc m) k))))
            (predicate_loop-Retried (delay * m) (suc n) (suc m) retries))
  ]

-- `retry_on_exception` returns or raises what the first call gives that does not raise a caught
-- error, or what the last call gives after all its retries; it makes at most one call more than
-- `num_retries`, and after `k` retries it has slept `base_delay` times `1 + 2 + … + k` seconds.
pub retry_on_exception-Retried {ℓ κ} :
    {A : Type ℓ} {E : Type κ} (num_retries base_delay : ℕ) (catches : E → Bool)
    (f : ℕ → Outcome A E)
    → Retried
        (is_caught catches)
        f
        (λ k. base_delay * sum_from 1 k)
        0
        num_retries
        (retry_on_exception num_retries base_delay catches f)
unfolding retry_on_exception
retry_on_exception-Retried num_retries base_delay catches f =
    exception_loop-Retried catches f base_delay 0 1 num_retries

-- `retry_on_predicate` returns the first result that the predicate accepts, or the last one after
-- all its retries; it makes at most one call more than `num_retries`, and after `k` retries it has
-- slept `base_delay` times the sum `1! + 2! + … + k!`, so the delay grows by factorials and not by
-- powers of `base_delay`.
pub retry_on_predicate-Retried {ℓ} :
    {A : Type ℓ} (num_retries : ℕ) (accepts : A → Bool) (base_delay : ℕ) (f : ℕ → A)
    → Retried
        (λ a. not (accepts a))
        f
        (λ k. base_delay * products_from 1 k)
        0
        num_retries
        (retry_on_predicate num_retries accepts base_delay f)
unfolding retry_on_predicate
retry_on_predicate-Retried num_retries accepts base_delay f =
    predicate_loop-Retried accepts f base_delay 0 1 num_retries
