-- ===== src/Resilience/Tests.antt =====
-- Calls of a client of network_resilience.py, and the theorems at them.
use rra_module.Prelude.{
  ℕ, zero, suc, ◌≡◌, ◌↔◌, ◌≤◌, refl, true, false, some, List, [], ◌∷◌, arith, Text,
}
use rra_module.Resilience.Breaker.{CircuitState, CircuitBreakerConfig, new, allow_request}
use rra_module.Resilience.Gate.{
  Event, success, failure, request, reset_event, passing, gate_of, run, gate_run, run-gate_run,
}
use rra_module.Resilience.Client.{
  QueuedRequest, RequestQueue, Reply, returned, raised, succeeded, ResilientClient, execute,
  attempt_all, process_queue, peek,
}
use rra_module.Resilience.Retry.{outcome_of, retry, execute-retry}
use rra_module.Resilience.Attempts.{RaiseBefore, execute-succeeded_iff}
use rra_module.Resilience.Trials.{process_queue-used_up}

-- The defaults of the source.
abbrev config : CircuitBreakerConfig
config = record {
  failure_threshold = 5;
  success_threshold = 2;
  timeout = 30000000;
  half_open_max_calls = 3;
}

-- Five failures open the circuit, which is asked too early and then after the timeout.
abbrev events : List Event
events =
    failure 1
    ∷ failure 2
    ∷ failure 3
    ∷ failure 4
    ∷ failure 5
    ∷ request 6
    ∷ request 30000005
    ∷ success
    ∷ request 30000006
    ∷ success
    ∷ request 30000007
    ∷ reset_event
    ∷ []

run-gate_run_example :
    (gate_of (run events (new config)).0 ≡ (gate_run config events (passing 0)).0)
    × ((run events (new config)).1 ≡ (gate_run config events (passing 0)).1)
run-gate_run_example = run-gate_run config events

told : (run events (new config)).1 ≡ false ∷ true ∷ true ∷ true ∷ []
told = (run-gate_run config events).1

abbrev id : Text
id = b'i' ∷ b'd' ∷ []

abbrev why : Text
why = b'n' ∷ b'o' ∷ []

abbrev call : Text
call = b'm' ∷ []

-- A service that answers at the third attempt.
abbrev service : ℕ → Reply ℕ
service zero = raised why
service (suc zero) = raised why
service (suc (suc k)) = returned 7

abbrev client : ResilientClient Text
unfolding new
client = record {
  max_retries = 3;
  fallback_urls = call ∷ [];
  current_url_index = 0;
  circuit_breaker = new config;
  queue = some (record { max_size = 1000; queue = [] });
}

third_time : (execute (λ a. a) id why call true 1 (λ k. k) service client).1 ≡ succeeded 7
unfolding execute new attempt_all allow_request
third_time = refl

execute-succeeded_iff_example :
    ((execute (λ a. a) id why call true 1 (λ k. k) service client).1 ≡ succeeded 7) ↔ (
      ((allow_request 1 client.circuit_breaker).1 ≡ true)
      × ((k : ℕ) × (k ≤ client.max_retries) × (service k ≡ returned 7) × RaiseBefore service 0 k))
execute-succeeded_iff_example =
    execute-succeeded_iff (λ a. a) id why call true 1 (λ k. k) service client 7

-- The service answers the call, as it answers the function that retry makes of it.
execute-retry_example :
    (execute (λ a. a) id why call false 1 (λ k. k) service client).1
    ≡ outcome_of (retry client.max_retries service)
unfolding client allow_request new
execute-retry_example = execute-retry (λ a. a) id why call 1 (λ k. k) service client refl

-- A half-open client with one trial call left and a request that has failed five times.
abbrev tired : QueuedRequest Text
tired = record { id = id; call = call; created_at = why; attempts = 5; last_error = some why }

abbrev tired_queue : RequestQueue Text
tired_queue = record { max_size = 1000; queue = tired ∷ [] }

abbrev half_open_client : ResilientClient Text
half_open_client = record {
  max_retries = 3;
  fallback_urls = [];
  current_url_index = 0;
  circuit_breaker = record {
    config = config;
    state = CircuitState.half_open;
    failure_count = 5;
    success_count = 0;
    last_failure_time = 1;
    half_open_calls = 2;
  };
  queue = some tired_queue;
}

process_queue-used_up_example :
    let (c', results) = process_queue (λ k. 30000002) service 1 0 half_open_client in
    (results ≡ (id, false) ∷ [])
    × ((later : ℕ) → allow_request later c'.circuit_breaker ≡ (c'.circuit_breaker, false))
unfolding peek
process_queue-used_up_example =
    process_queue-used_up (λ k. 30000002) service half_open_client tired_queue tired refl refl
      (omega arith) refl refl
