-- ===== src/Breaker.antt =====
-- plugins/llmrouter/circuitbreaker.go: the circuit breaker of a model provider.
-- Every method holds the mutex for its whole body, so a call is one step. `time.Now()` is an
-- argument, in nanoseconds. Counters and settings are int64 patterns; the error rate is computed by
-- the operations of `Float`.
pub mod Invariant
pub mod HalfOpen
pub mod Tripping
mod Examples
use cloud_agent_platform.Base.{
  ℕ, ◌+◌, String, Bool, true, false, ◌&&◌, Option, none, some, List, [], ◌∷◌, nat_beq,
  if◌then◌else◌,
}
use cloud_agent_platform.Base.Int64.{inc, slt, sle, sub, mul}
use cloud_agent_platform.Base.Float.{Float}

pub data CircuitState : Type 0 where
  closed open_state half_open : CircuitState

unfoldable pub state_to_string : CircuitState → String
state_to_string closed = "closed"
state_to_string open_state = "open"
state_to_string half_open = "half-open"

abbrev pub is_open : CircuitState → Bool
is_open open_state = true
is_open _ = false

module _ (fl : Float) where
  open fl use {F, of_int, divide, at_most}

  pub record CircuitBreakerConfig : Type 0 where
    pub error_rate_threshold : F
    pub min_requests : ℕ
    pub half_open_max_requests : ℕ
    pub open_timeout_ms : ℕ

  pub record CircuitBreaker : Type 0 where
    pub config : CircuitBreakerConfig
    pub state : CircuitState
    pub total_reqs : ℕ
    pub failed_reqs : ℕ
    pub last_state_change : ℕ
    pub half_open_reqs : ℕ

  unfoldable pub new_circuit_breaker : CircuitBreakerConfig → ℕ → CircuitBreaker
  new_circuit_breaker config now = record {
    config = config;
    state = closed;
    total_reqs = 0;
    failed_reqs = 0;
    last_state_change = now;
    half_open_reqs = 0;
  }

  unfoldable pub to_open : ℕ → CircuitBreaker → CircuitBreaker
  to_open now cb =
      if is_open cb.state
      then cb
      else record cb { state = open_state; last_state_change = now; half_open_reqs = 0 }

  unfoldable pub to_half_open : ℕ → CircuitBreaker → CircuitBreaker
  to_half_open now cb = record cb {
    state = half_open;
    last_state_change = now;
    half_open_reqs = 0;
    failed_reqs = 0;
    total_reqs = 0;
  }

  unfoldable pub to_closed : ℕ → CircuitBreaker → CircuitBreaker
  to_closed now cb = record cb {
    state = closed;
    last_state_change = now;
    half_open_reqs = 0;
    failed_reqs = 0;
    total_reqs = 0;
  }

  unfoldable pub error_rate : CircuitBreaker → F
  error_rate cb =
      if nat_beq cb.total_reqs 0
      then of_int 0
      else divide (of_int cb.failed_reqs) (of_int cb.total_reqs)

  -- Is the timeout over? Durations are int64 nanoseconds.
  abbrev pub timeout_passed : ℕ → CircuitBreaker → Bool
  timeout_passed now cb = sle (mul cb.config.open_timeout_ms 1000000) (sub now cb.last_state_change)

  allow_in : CircuitState → ℕ → CircuitBreaker → CircuitBreaker × Bool
  unfolding to_half_open
  allow_in closed now cb = (cb, true)
  allow_in open_state now cb =
      if timeout_passed now cb then (to_half_open now cb, true) else (cb, false)
  allow_in half_open now cb =
      if slt cb.half_open_reqs cb.config.half_open_max_requests
      then (record cb { half_open_reqs = inc cb.half_open_reqs }, true)
      else (cb, false)

  unfoldable pub allow : ℕ → CircuitBreaker → CircuitBreaker × Bool
  unfolding allow_in
  allow now cb = allow_in cb.state now cb

  update_state_in : CircuitState → ℕ → CircuitBreaker → CircuitBreaker
  unfolding to_open to_closed
  update_state_in closed now cb =
      if sle cb.config.min_requests cb.total_reqs
        && at_most cb.config.error_rate_threshold
            (divide (of_int cb.failed_reqs) (of_int cb.total_reqs))
      then to_open now cb
      else cb
  update_state_in open_state now cb = cb
  update_state_in half_open now cb =
      if slt 0 cb.failed_reqs
      then to_open now cb
      else if sle cb.config.half_open_max_requests cb.half_open_reqs
      then to_closed now cb
      else cb

  unfoldable pub update_state : ℕ → CircuitBreaker → CircuitBreaker
  unfolding update_state_in
  update_state now cb = update_state_in cb.state now cb

  unfoldable pub record_success : ℕ → CircuitBreaker → CircuitBreaker
  unfolding update_state
  record_success now cb = update_state now (record cb { total_reqs = inc cb.total_reqs })

  unfoldable pub record_failure : ℕ → CircuitBreaker → CircuitBreaker
  unfolding update_state
  record_failure now cb =
      update_state now
        (record cb { total_reqs = inc cb.total_reqs; failed_reqs = inc cb.failed_reqs })

  unfoldable pub reset : ℕ → CircuitBreaker → CircuitBreaker
  reset now cb = record cb {
    total_reqs = 0;
    failed_reqs = 0;
    half_open_reqs = 0;
    state = closed;
    last_state_change = now;
  }
