-- ===== src/Resilience/Retry.antt =====
-- The decorators `retry` and `async_retry` of network_resilience.py, and how `execute` repeats their
-- loop. The delays between attempts are left out.
use rra_module.Prelude.{
  ℕ, zero, suc, ◌+◌, ◌≡◌, refl, ◌∙◌, ap, sym, subst, inl, inr, true, false, Option, none, some,
  Text, arith, Option-cases,
}
use rra_module.Resilience.Breaker.{allow_request}
use rra_module.Resilience.Client.{
  Reply, returned, raised, escaped, Outcome, succeeded, failed, propagated, ResilientClient,
  attempt_all, put_off, execute,
}
use rra_module.Resilience.Attempts.{Reply-cases, next_client}

module _ {B : Type 0} where
  -- The loop from an attempt on, after which `left` retries remain; the last exception is raised.
  unfoldable pub retry_from : ℕ → ℕ → (ℕ → Reply B) → Reply B
  retry_from zero attempt service = service attempt
  retry_from (suc left) attempt service = elim (service attempt) [
    | returned v ↦ returned v
    | escaped why ↦ escaped why
    | raised why ↦ retry_from left (suc attempt) service
  ]

  -- The function that `retry` makes of the service, called once.
  unfoldable pub retry : ℕ → (ℕ → Reply B) → Reply B
  unfolding retry_from
  retry max_retries service = retry_from max_retries 0 service

  -- What `execute` makes of it.
  abbrev pub outcome_of : Reply B → Outcome B
  outcome_of (returned v) = succeeded v
  outcome_of (raised why) = failed (some why)
  outcome_of (escaped why) = propagated why

  abbrev ending : Option (Outcome B) → Option Text → Outcome B
  ending (some o) error = o
  ending none error = failed error

module _ {A B : Type 0} (clock : ℕ → ℕ) (service : ℕ → Reply B) where
  attempt_all-retry_from :
      (left attempt : ℕ) (error : Option Text) (c : ResilientClient A)
      → ending
          (attempt_all clock service (suc left) attempt error c).1
          (attempt_all clock service (suc left) attempt error c).2
        ≡ outcome_of (retry_from left attempt service)
  unfolding attempt_all retry_from
  attempt_all-retry_from zero attempt error c = elim (Reply-cases (service attempt)) [
    | inl (v, e) ↦ rw (e, attempt_all, retry_from) refl
    | inr (inr (why, e)) ↦ rw (e, attempt_all, retry_from) refl
    | inr (inl (why, e)) ↦ rw (e, attempt_all, retry_from) refl
  ]
  attempt_all-retry_from (suc left) attempt error c = elim (Reply-cases (service attempt)) [
    | inl (v, e) ↦ rw (e, attempt_all, retry_from) refl
    | inr (inr (why, e)) ↦ rw (e, attempt_all, retry_from) refl
    | inr (inl (why, e)) ↦
        let c' = next_client clock service (suc left) attempt c in
        let tried : attempt_all clock service (suc (suc left)) attempt error c
            ≡ attempt_all clock service (suc left) (suc attempt) (some why) c' =
          rw (e, attempt_all) refl in
        let again : retry_from (suc left) attempt service ≡ retry_from left (suc attempt) service =
          rw (e, retry_from) refl in
        ap (λ t. ending t.1 t.2) tried
        ∙ attempt_all-retry_from left (suc attempt) (some why) c'
        ∙ ap outcome_of (sym again)
  ]

-- A call of the client that the circuit breaker lets through, and that is not to be queued, ends as the
-- function that retry makes of the service with the same number of retries: it returns the same
-- value, or lets the same exception through, or reports the exception that retry raises.
pub execute-retry :
    {A B : Type 0} (sanitize : A → A) (id now_text : Text) (call : A) (now : ℕ) (clock : ℕ → ℕ)
    (service : ℕ → Reply B) (c : ResilientClient A)
    → (allow_request now c.circuit_breaker).1 ≡ true
    → (execute sanitize id now_text call false now clock service c).1
      ≡ outcome_of (retry c.max_retries service)
unfolding execute put_off retry
execute-retry sanitize id now_text call now clock service c allowed =
    let c' = record c { circuit_breaker = (allow_request now c.circuit_breaker).0 } in
    let tries = λ (n : ℕ). attempt_all clock service n 0 none c' in
    let next : suc c.max_retries ≡ c.max_retries + 1 = omega arith in
    let same =
      subst (λ n. ending (tries n).1 (tries n).2 ≡ outcome_of (retry_from c.max_retries 0 service))
        next (attempt_all-retry_from clock service c.max_retries 0 none c') in
    elim (Option-cases (attempt_all clock service (c.max_retries + 1) 0 none c').1) [
      | inl none_back ↦ rw (allowed, none_back, execute) (rw none_back at same)
      | inr (o, back) ↦ rw (allowed, back, execute) (rw back at same)
    ]
