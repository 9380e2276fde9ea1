-- ===== src/Resilience/Breaker.antt =====
-- The circuit breaker of src/rra/integration/network_resilience.py. Times, which the source holds
-- as floats, are whole microseconds; a clock reading is an argument.
use rra_module.Prelude.{ℕ, ◌+◌, Bool, true, false, ltb, leb, if◌then◌else◌}

pub data CircuitState : Type 0 where
  closed open_circuit half_open : CircuitState

pub record CircuitBreakerConfig : Type 0 where
  pub failure_threshold : ℕ
  pub success_threshold : ℕ
  pub timeout : ℕ
  pub half_open_max_calls : ℕ

-- `CircuitBreaker` with its `CircuitBreakerState`.
pub record CircuitBreaker : Type 0 where
  pub config : CircuitBreakerConfig
  pub state : CircuitState
  pub failure_count : ℕ
  pub success_count : ℕ
  pub last_failure_time : ℕ
  pub half_open_calls : ℕ

unfoldable pub new : CircuitBreakerConfig → CircuitBreaker
new config = record {
  config = config;
  state = closed;
  failure_count = 0;
  success_count = 0;
  last_failure_time = 0;
  half_open_calls = 0;
}

-- The property `state`, which may change the state; the result is its field afterwards.
unfoldable pub update_state : ℕ → CircuitBreaker → CircuitBreaker
update_state now b = elim b.state [
  | open_circuit ↦
      if leb (b.last_failure_time + b.config.timeout) now
      then record b { state = half_open; half_open_calls = 0; success_count = 0 }
      else b
  | _ ↦ b
]

unfoldable pub record_success : CircuitBreaker → CircuitBreaker
record_success b = elim b.state [
  | half_open ↦
      if leb b.config.success_threshold (b.success_count + 1)
      then record b { success_count = b.success_count + 1; state = closed; failure_count = 0 }
      else record b { success_count = b.success_count + 1 }
  | closed ↦ record b { failure_count = 0 }
  | open_circuit ↦ b
]

unfoldable pub record_failure : ℕ → CircuitBreaker → CircuitBreaker
record_failure now b =
    let b' = record b { failure_count = b.failure_count + 1; last_failure_time = now } in
    elim b.state [
      | half_open ↦ record b' { state = open_circuit }
      | closed ↦
          if leb b.config.failure_threshold (b.failure_count + 1)
          then record b' { state = open_circuit }
          else b'
      | open_circuit ↦ b'
    ]

-- `allow_request` once the state is up to date.
unfoldable pub admit : CircuitBreaker → CircuitBreaker × Bool
admit b = elim b.state [
  | closed ↦ (b, true)
  | open_circuit ↦ (b, false)
  | half_open ↦
      if ltb b.half_open_calls b.config.half_open_max_calls
      then (record b { half_open_calls = b.half_open_calls + 1 }, true)
      else (b, false)
]

unfoldable pub allow_request : ℕ → CircuitBreaker → CircuitBreaker × Bool
unfolding update_state admit
allow_request now b = admit (update_state now b)

unfoldable pub reset : CircuitBreaker → CircuitBreaker
unfolding new
reset b = new b.config
