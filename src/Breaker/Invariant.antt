-- ===== src/Breaker/Invariant.antt =====
-- What holds of a circuit breaker between two calls.
use cloud_agent_platform.Base.{ℕ, ◌+◌, ◌≤◌, ◌<◌, ◌≡◌, ◌⊎◌, List, [], ◌∷◌, arith, length}
use cloud_agent_platform.Base.Int64.{IsNonneg, sign_bit}
use cloud_agent_platform.Base.Float.{Float}
use cloud_agent_platform.Breaker.{
  half_open, CircuitBreakerConfig, CircuitBreaker, new_circuit_breaker, allow, record_success,
  record_failure, reset,
}

module _ (fl : Float) where
  -- The failures are among the requests; half-open requests are counted in the half-open state
  -- alone, and never past the limit.
  pub record IsSound (cb : CircuitBreaker fl) : Type 0 where
    pub failed_within : cb.failed_reqs ≤ cb.total_reqs
    pub limit_nonneg : IsNonneg cb.config.half_open_max_requests
    pub within_limit : cb.half_open_reqs ≤ cb.config.half_open_max_requests
    pub counted_half_open : (cb.state ≡ half_open) ⊎ (cb.half_open_reqs ≡ 0)

  -- A call of the breaker.
  pub data Call : Type 0 where
    ask succeed fail clear : (now : ℕ) → Call

  unfoldable pub call : Call → CircuitBreaker fl → CircuitBreaker fl
  call (ask now) cb = (allow fl now cb).0
  call (succeed now) cb = record_success fl now cb
  call (fail now) cb = record_failure fl now cb
  call (clear now) cb = reset fl now cb

  pub call-IsSound :
      (c : Call) (cb : CircuitBreaker fl)
      → IsSound cb
      → cb.total_reqs + 1 < sign_bit
      → IsSound (call c cb)
  unfolding call allow record_success record_failure reset
  call-IsSound (ask now) cb h k = ground arith
  call-IsSound (succeed now) cb h k = ground arith
  call-IsSound (fail now) cb h k = ground arith
  call-IsSound (clear now) cb h k = ground arith

  unfoldable pub run : List Call → CircuitBreaker fl → CircuitBreaker fl
  run [] cb = cb
  run (c ∷ cs) cb = run cs (call c cb)

  total-call : (c : Call) (cb : CircuitBreaker fl) → (call c cb).total_reqs ≤ cb.total_reqs + 1
  unfolding call allow record_success record_failure reset
  total-call (ask now) cb = ground arith
  total-call (succeed now) cb = ground arith
  total-call (fail now) cb = ground arith
  total-call (clear now) cb = ground arith

  run_from-IsSound :
      (cs : List Call) (cb : CircuitBreaker fl)
      → IsSound cb
      → cb.total_reqs + length cs < sign_bit
      → IsSound (run cs cb)
  unfolding run
  run_from-IsSound [] cb h k = h
  run_from-IsSound (c ∷ cs) cb h k =
      run_from-IsSound cs (call c cb) (call-IsSound c cb h (omega arith))
        (omega (arith, total-call c cb))

  -- The invariant holds after every sequence of fewer than 2 ^ 63 calls of a new breaker, in any
  -- order and at any times.
  pub run-IsSound :
      (config : CircuitBreakerConfig fl) (start : ℕ) (cs : List Call)
      → IsNonneg config.half_open_max_requests
      → length cs < sign_bit
      → IsSound (run cs (new_circuit_breaker fl config start))
  run-IsSound config start cs h k =
      run_from-IsSound cs (new_circuit_breaker fl config start)
        (unfold new_circuit_breaker in ground arith) (unfold new_circuit_breaker in omega arith)
