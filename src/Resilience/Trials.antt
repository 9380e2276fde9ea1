-- ===== src/Resilience/Trials.antt =====
-- The trial calls of a half-open circuit breaker of network_resilience.py.
use rra_module.Prelude.{
  ℕ, ◌+◌, ◌≤◌, ◌≡◌, refl, ap, sym, subst, true, false, some, [], ◌∷◌, arith, leb,
}
use rra_module.Resilience.Breaker.{CircuitState, CircuitBreaker, allow_request}
use rra_module.Resilience.Client.{
  QueuedRequest, RequestQueue, Reply, ResilientClient, process_next, process_queue, peek, remove,
}

-- The last trial call of a half-open breaker.
last_trial :
    (b : CircuitBreaker) (now : ℕ)
    → b.state ≡ CircuitState.half_open
    → b.half_open_calls + 1 ≡ b.config.half_open_max_calls
    → allow_request now b ≡ (record b { half_open_calls = b.half_open_calls + 1 }, true)
unfolding allow_request
last_trial b now half last = ground (arith, half, last)

-- A breaker that is half open and has let through as many calls as it may refuses every further
-- request, at whatever time, and stays as it is.
used_up :
    (b : CircuitBreaker)
    → b.state ≡ CircuitState.half_open
    → b.config.half_open_max_calls ≤ b.half_open_calls
    → (later : ℕ) → allow_request later b ≡ (b, false)
unfolding allow_request
used_up b half full later = ground (arith, half)

module _ {A B : Type 0} where
  -- If a queued request that has failed five times is dropped while the circuit is half open with one
  -- trial call left, the drop uses up the call, though no outcome is recorded: from then on every
  -- request is refused, at whatever time.
  pub process_queue-used_up :
      (clock : ℕ → ℕ) (service : ℕ → Reply B) (c : ResilientClient A) (q : RequestQueue A)
      (r : QueuedRequest A)
      → c.queue ≡ some q
      → peek q ≡ some r
      → 5 ≤ r.attempts
      → c.circuit_breaker.state ≡ CircuitState.half_open
      → c.circuit_breaker.half_open_calls + 1 ≡ c.circuit_breaker.config.half_open_max_calls
      → let (c', results) = process_queue clock service 1 0 c in
        (results ≡ (r.id, false) ∷ [])
        × ((later : ℕ) → allow_request later c'.circuit_breaker ≡ (c'.circuit_breaker, false))
  unfolding process_queue process_next
  process_queue-used_up clock service c q r kept head old half last =
      let b = record c.circuit_breaker {
        half_open_calls = c.circuit_breaker.half_open_calls + 1;
      } in
      let admits = last_trial c.circuit_breaker (clock 0) half last in
      let five : leb 5 r.attempts ≡ true = ground arith in
      let c' : ResilientClient A = record c {
        circuit_breaker = b;
        queue = some (remove r.id q).0;
      } in
      let round : process_next (clock 0) (service 0) q c ≡ (c', some (r.id, false)) =
        rw (head, admits, five, process_next) refl in
      let dropped : process_queue clock service 1 0 c ≡ (c', (r.id, false) ∷ []) =
        rw (kept, process_queue, round) (ap (λ s. (s.0, (r.id, false) ∷ [])) round) in
      subst
        (λ s.
          (s.1 ≡ (r.id, false) ∷ [])
          × ((later : ℕ) → allow_request later s.0.circuit_breaker ≡ (s.0.circuit_breaker, false)))
        (sym dropped) (refl, used_up b half (omega arith))
