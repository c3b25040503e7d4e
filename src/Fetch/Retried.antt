-- ===== src/Fetch/Retried.antt =====
-- charmhelpers/fetch/ubuntu.py: how often a command is run, and how it ends.
use charm_helpers.Prelude.{
  ℕ, zero, suc, ◌+◌, ◌≤◌, ◌<◌, ◌≡◌, refl, List, Bool, true, false, ◌==◌, arith, Bool-cases, inl,
  inr, ap, sym, subst, ◌∙◌, if◌then◌else◌,
}
use mathlib.Core.Bool.{false≢true}
use charm_helpers.Fetch.{
  Ended, succeeded, exited, still_running, elem_code, retry_loop, run_with_retries,
}

-- how a command ends with an exit code
pub ended_with : ℕ → Ended
ended_with code = if code == 0 then succeeded else exited code

-- the code asks for another attempt
pub is_retried : List ℕ → ℕ → Bool
is_retried codes code = if code == 0 then false else elem_code code codes

-- A run that ended after `k` retries, of at most `retries`, from the attempt `n` on.
pub record Ran (codes : List ℕ) (exit_code : ℕ → ℕ) (n retries : ℕ) (run : Ended × ℕ) : Type 0 where
  pub k : ℕ
  pub within : k ≤ retries
  pub attempts_eq : run.1 ≡ n + suc k
  pub ended_eq : run.0 ≡ ended_with (exit_code (n + k))
  pub wanted : (i : ℕ) → i < k → is_retried codes (exit_code (n + i)) ≡ true
  pub exhausted : is_retried codes (exit_code (n + k)) ≡ true → k ≡ retries

Ran-at_once :
    (codes : List ℕ) (exit_code : ℕ → ℕ) (n retries : ℕ)
    → (is_retried codes (exit_code n) ≡ true → retries ≡ 0)
    → Ran codes exit_code n retries (ended_with (exit_code n), suc n)
Ran-at_once codes exit_code n retries h = record {
  k = 0;
  within = omega arith;
  attempts_eq = omega arith;
  ended_eq = ap (λ i. ended_with (exit_code i)) (omega arith);
  wanted = λ i lt. absurd (none_below i lt);
  exhausted =
      λ more. sym (h (subst (λ i. is_retried codes (exit_code i) ≡ true) (omega arith) more));
}
  where
    none_below : (i : ℕ) → ¬ (i < 0)
    none_below i = omega arith

Ran-once_more :
    (codes : List ℕ) (exit_code : ℕ → ℕ) (n retries : ℕ) (run : Ended × ℕ)
    → is_retried codes (exit_code n) ≡ true
    → Ran codes exit_code (suc n) retries run
    → Ran codes exit_code n (suc retries) run
Ran-once_more codes exit_code n retries run h r = record {
  k = suc r.k;
  within = ground (arith, r.within);
  attempts_eq = ground (arith, r.attempts_eq);
  ended_eq = r.ended_eq ∙ ap (λ i. ended_with (exit_code i)) (omega arith);
  wanted = earlier r.wanted;
  exhausted = λ more.
      ap suc (r.exhausted (subst (λ i. is_retried codes (exit_code i) ≡ true) (omega arith) more));
}
  where
    earlier :
        ((i : ℕ) → i < r.k → is_retried codes (exit_code (suc n + i)) ≡ true)
        → (i : ℕ) → i < suc r.k
        → is_retried codes (exit_code (n + i)) ≡ true
    earlier before zero lt = subst (λ i. is_retried codes (exit_code i) ≡ true) (omega arith) h
    earlier before (suc i) lt =
        subst (λ j. is_retried codes (exit_code j) ≡ true) (omega arith)
          (before i (omega (arith, lt)))

retry_loop-last :
    (codes : List ℕ) (exit_code : ℕ → ℕ) (fuel n : ℕ)
    → elem_code 0 codes ≡ false
    → retry_loop codes exit_code (suc fuel) 0 n ≡ (ended_with (exit_code n), suc n)
unfolding retry_loop ended_with
retry_loop-last codes exit_code fuel n z = ground arith

retry_loop-again :
    (codes : List ℕ) (exit_code : ℕ → ℕ) (fuel left n : ℕ)
    → is_retried codes (exit_code n) ≡ true
    → retry_loop codes exit_code (suc fuel) (suc left) n
      ≡ retry_loop codes exit_code fuel left (suc n)
unfolding retry_loop is_retried
retry_loop-again codes exit_code fuel left n h = ground arith

retry_loop-stops :
    (codes : List ℕ) (exit_code : ℕ → ℕ) (fuel left n : ℕ)
    → elem_code 0 codes ≡ false
    → is_retried codes (exit_code n) ≡ false
    → retry_loop codes exit_code (suc fuel) left n ≡ (ended_with (exit_code n), suc n)
unfolding retry_loop is_retried ended_with
retry_loop-stops codes exit_code fuel left n z h = ground arith

retry_loop-Ran :
    (codes : List ℕ) (exit_code : ℕ → ℕ) (left n : ℕ)
    → elem_code 0 codes ≡ false
    → Ran codes exit_code n left (retry_loop codes exit_code (suc left) left n)
retry_loop-Ran codes exit_code zero n z =
    subst (Ran codes exit_code n 0) (sym (retry_loop-last codes exit_code 0 n z))
      (Ran-at_once codes exit_code n 0 (λ h. refl))
retry_loop-Ran codes exit_code (suc left) n z = elim (Bool-cases (is_retried codes (exit_code n))) [
  | inl h ↦
      subst (Ran codes exit_code n (suc left))
        (sym (retry_loop-again codes exit_code (suc left) left n h))
        (Ran-once_more codes exit_code n left _ h (retry_loop-Ran codes exit_code left (suc n) z))
  | inr h ↦
      subst (Ran codes exit_code n (suc left))
        (sym (retry_loop-stops codes exit_code (suc left) (suc left) n z h))
        (Ran-at_once codes exit_code n (suc left) (λ e. absurd (false≢true (sym h ∙ e))))
]

-- If 0 is not among the codes that are retried, a command is run until an exit code asks for no other
-- attempt, and at most once more than there are retries, for which the fuel is enough: all exit codes
-- before the last are retried ones, the last decides how the run ends, and it is a retried one only if
-- all retries were used up.
pub run_with_retries-Ran :
    (max_retries : ℕ) (codes : List ℕ) (exit_code : ℕ → ℕ)
    → elem_code 0 codes ≡ false
    → Ran codes exit_code 0 max_retries (run_with_retries max_retries codes exit_code)
unfolding run_with_retries
run_with_retries-Ran max_retries codes exit_code z = retry_loop-Ran codes exit_code max_retries 0 z

-- With 0 among the codes that are retried, a command that succeeds is run without end.
retry_loop_endless :
    (codes : List ℕ) (exit_code : ℕ → ℕ) (fuel left n : ℕ)
    → elem_code 0 codes ≡ true
    → ((i : ℕ) → exit_code i ≡ 0)
    → (retry_loop codes exit_code fuel left n).0 ≡ still_running
unfolding retry_loop
retry_loop_endless codes exit_code zero left n z h = refl
retry_loop_endless codes exit_code (suc fuel) left n z h =
    rw (h n, z, retry_loop) (retry_loop_endless codes exit_code fuel left (suc n) z h)
