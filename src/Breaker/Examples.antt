-- ===== src/Breaker/Examples.antt =====
-- The theorems of the circuit breaker at concrete breakers, with error rates in whole hundredths.
use cloud_agent_platform.Base.{ℕ, ◌≡◌, refl, List, [], ◌∷◌, arith}
use cloud_agent_platform.Base.Float.{hundredths}
use cloud_agent_platform.Breaker.{
  CircuitState, open_state, CircuitBreakerConfig, CircuitBreaker, new_circuit_breaker, allow,
}
use cloud_agent_platform.Breaker.Invariant.{
  IsSound, Call, ask, succeed, fail, clear, run, run-IsSound,
}
use cloud_agent_platform.Breaker.HalfOpen.{ask_all}

-- Half of at least four requests, ten milliseconds, two requests when half open.
abbrev settings : CircuitBreakerConfig hundredths
settings = record {
  error_rate_threshold = 50;
  min_requests = 4;
  half_open_max_requests = 2;
  open_timeout_ms = 10;
}

abbrev breaker : CircuitState → ℕ → ℕ → ℕ → CircuitBreaker hundredths
breaker state total failed asked = record {
  config = settings;
  state = state;
  total_reqs = total;
  failed_reqs = failed;
  last_state_change = 0;
  half_open_reqs = asked;
}

abbrev calls : List (Call hundredths)
calls = ask 1 ∷ fail 2 ∷ succeed 3 ∷ clear 4 ∷ []

run-IsSound_example :
    IsSound hundredths (run hundredths calls (new_circuit_breaker hundredths settings 0))
run-IsSound_example = run-IsSound hundredths settings 0 calls (omega arith) (omega arith)

abbrev times : List ℕ
times = 20_000_001 ∷ 20_000_002 ∷ 20_000_003 ∷ []

-- The run itself: three of the four requests pass.
three_pass : (ask_all hundredths (20_000_000 ∷ times) (breaker open_state 4 2 0)).1 ≡ 3
unfolding ask_all allow
three_pass = refl
