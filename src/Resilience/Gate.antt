-- ===== src/Resilience/Gate.antt =====
-- What the circuit breaker of network_resilience.py promises: the gate that it implements.
use rra_module.Prelude.{
  ℕ, ◌+◌, ◌-◌, ◌≡◌, refl, ◌∙◌, ap, subst, Bool, true, false, List, [], ◌∷◌, ◌++◌, arith, ltb, leb,
  if◌then◌else◌,
}
use rra_module.Resilience.Breaker.{
  CircuitState, CircuitBreakerConfig, CircuitBreaker, new, record_success, record_failure,
  allow_request, reset,
}

-- A gate lets calls through and counts the failures in a row, or is shut since its last failure, or
-- is on trial, with a number of calls that it still lets through and of successes so far.
pub data Gate : Type 0 where
  passing : ℕ → Gate
  shut : ℕ → Gate
  trial : ℕ → ℕ → Gate

abbrev pub succeed : CircuitBreakerConfig → Gate → Gate
succeed c (passing n) = passing 0
succeed c (shut t) = shut t
succeed c (trial calls n) =
    if leb c.success_threshold (n + 1) then passing 0 else trial calls (n + 1)

abbrev pub fail : CircuitBreakerConfig → ℕ → Gate → Gate
fail c now (passing n) = if leb c.failure_threshold (n + 1) then shut now else passing (n + 1)
fail c now (shut t) = shut now
fail c now (trial calls n) = shut now

abbrev pub ask_trial : ℕ → ℕ → Gate × Bool
ask_trial calls n = if ltb 0 calls then (trial (calls - 1) n, true) else (trial calls n, false)

abbrev pub ask : CircuitBreakerConfig → ℕ → Gate → Gate × Bool
ask c now (passing n) = (passing n, true)
ask c now (shut t) =
    if leb (t + c.timeout) now then ask_trial c.half_open_max_calls 0 else (shut t, false)
ask c now (trial calls n) = ask_trial calls n

-- The gate that a breaker stands for; what it forgets is never read again.
abbrev pub gate_of : CircuitBreaker → Gate
gate_of b = elim b.state [
  | CircuitState.closed ↦ passing b.failure_count
  | CircuitState.open_circuit ↦ shut b.last_failure_time
  | CircuitState.half_open ↦
      trial (b.config.half_open_max_calls - b.half_open_calls) b.success_count
]

pub data Event : Type 0 where
  success : Event
  failure request : ℕ → Event
  reset_event : Event

-- The breaker after an event, and what a request is told.
abbrev pub step : Event → CircuitBreaker → CircuitBreaker × List Bool
unfolding record_success record_failure allow_request reset
step success b = (record_success b, [])
step (failure now) b = (record_failure now b, [])
step (request now) b = let (b', allowed) = allow_request now b in (b', allowed ∷ [])
step reset_event b = (reset b, [])

abbrev pub gate_step : CircuitBreakerConfig → Event → Gate → Gate × List Bool
gate_step c success g = (succeed c g, [])
gate_step c (failure now) g = (fail c now g, [])
gate_step c (request now) g = let (g', allowed) = ask c now g in (g', allowed ∷ [])
gate_step c reset_event g = (passing 0, [])

step-gate_of :
    (e : Event) (b : CircuitBreaker)
    → ((step e b).0.config ≡ b.config)
      × (gate_of (step e b).0 ≡ (gate_step b.config e (gate_of b)).0)
      × ((step e b).1 ≡ (gate_step b.config e (gate_of b)).1)
unfolding record_success record_failure allow_request reset
step-gate_of success b = (ground arith, ground arith, ground arith)
step-gate_of (failure now) b = (ground arith, ground arith, ground arith)
step-gate_of (request now) b = (ground arith, ground arith, ground arith)
step-gate_of reset_event b = (ground arith, ground arith, ground arith)

abbrev pub run : List Event → CircuitBreaker → CircuitBreaker × List Bool
unfolding step
run [] b = (b, [])
run (e ∷ es) b = let (b', told) = step e b in let (b'', rest) = run es b' in (b'', told ++ rest)

abbrev pub gate_run : CircuitBreakerConfig → List Event → Gate → Gate × List Bool
gate_run c [] g = (g, [])
gate_run c (e ∷ es) g =
    let (g', told) = gate_step c e g in let (g'', rest) = gate_run c es g' in (g'', told ++ rest)

run-gate_run_from :
    (c : CircuitBreakerConfig) (es : List Event) (b : CircuitBreaker) (g : Gate)
    → b.config ≡ c
    → gate_of b ≡ g
    → (gate_of (run es b).0 ≡ (gate_run c es g).0) × ((run es b).1 ≡ (gate_run c es g).1)
unfolding run
run-gate_run_from c [] b g same here = (here, refl)
run-gate_run_from c (e ∷ es) b g same here =
    let (config, gate, told) = step-gate_of e b in
    let gate' : gate_of (step e b).0 ≡ (gate_step c e g).0 =
      subst (λ k. gate_of (step e b).0 ≡ (gate_step k e g).0) same
        (subst (λ h. gate_of (step e b).0 ≡ (gate_step b.config e h).0) here gate) in
    let told' : (step e b).1 ≡ (gate_step c e g).1 =
      subst (λ k. (step e b).1 ≡ (gate_step k e g).1) same
        (subst (λ h. (step e b).1 ≡ (gate_step b.config e h).1) here told) in
    let rest = run-gate_run_from c es (step e b).0 (gate_step c e g).0 (config ∙ same) gate' in
    (
      rest.0,
      ap (λ t. t ++ (run es (step e b).0).1) told' ∙ ap (λ t. (gate_step c e g).1 ++ t) rest.1,
    )

-- The breaker implements the gate: after any sequence of successes, failures, requests and resets, at
-- any times, every request has been told the same as by the gate, and the breaker stands for the
-- gate's state.
pub run-gate_run :
    (c : CircuitBreakerConfig) (es : List Event)
    → (gate_of (run es (new c)).0 ≡ (gate_run c es (passing 0)).0)
      × ((run es (new c)).1 ≡ (gate_run c es (passing 0)).1)
unfolding new
run-gate_run c es = run-gate_run_from c es (new c) (passing 0) refl refl
