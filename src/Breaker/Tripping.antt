-- ===== src/Breaker/Tripping.antt =====
-- When a circuit breaker opens, stays open and closes again.
use cloud_agent_platform.Base.{ℕ, ◌+◌, ◌≤◌, ◌<◌, ◌≡◌, ◌↔◌, ◌⊎◌, true, false, arith, if◌then◌else◌}
use cloud_agent_platform.Base.Int64.{IsNonneg, sign_bit}
use cloud_agent_platform.Base.Float.{Float}
use cloud_agent_platform.Breaker.{
  closed, open_state, half_open, CircuitBreaker, allow, timeout_passed, record_success,
  record_failure, to_half_open,
}

module _ (fl : Float) where
  open fl use {of_int, divide, at_most}

  -- A closed breaker opens on a failure exactly if the requests, this one included, reach the
  -- minimum and their error rate reaches the threshold.
  closed_trips :
      (now : ℕ) (cb : CircuitBreaker fl)
      → cb.state ≡ closed
      → cb.failed_reqs ≤ cb.total_reqs
      → cb.total_reqs + 1 < sign_bit
      → IsNonneg cb.config.min_requests
      → ((record_failure fl now cb).state ≡ open_state) ↔ (
          (cb.config.min_requests ≤ cb.total_reqs + 1)
          × (at_most cb.config.error_rate_threshold
                (divide (of_int (cb.failed_reqs + 1)) (of_int (cb.total_reqs + 1)))
              ≡ true))
  unfolding record_failure
  closed_trips now cb s f t m = ground arith

  -- An open breaker refuses a request and stays as it is, unless the timeout has passed: then it is
  -- half open and the request passes. No result of an earlier request moves it or its clock.
  open_holds :
      (now : ℕ) (cb : CircuitBreaker fl)
      → cb.state ≡ open_state
      → (allow fl now cb
          ≡ (if timeout_passed fl now cb then (to_half_open fl now cb, true) else (cb, false)))
        × ((record_success fl now cb).state ≡ open_state)
        × ((record_failure fl now cb).state ≡ open_state)
        × ((record_success fl now cb).last_state_change ≡ cb.last_state_change)
        × ((record_failure fl now cb).last_state_change ≡ cb.last_state_change)
  unfolding allow record_success record_failure
  open_holds now cb s = ground arith

  -- One failure in the half-open state opens the breaker, and restarts its timeout.
  pub half_open_fails :
      (now : ℕ) (cb : CircuitBreaker fl)
      → cb.state ≡ half_open
      → cb.failed_reqs + 1 < sign_bit
      → ((record_failure fl now cb).state ≡ open_state)
        × ((record_failure fl now cb).last_state_change ≡ now)
  unfolding record_failure
  half_open_fails now cb s f = ground arith

  -- In the half-open state without failures, a success closes the breaker and clears its counters
  -- exactly if the whole limit has been let through; how many of those requests have come back does
  -- not matter.
  half_open_closes :
      (now : ℕ) (cb : CircuitBreaker fl)
      → cb.state ≡ half_open
      → cb.failed_reqs ≡ 0
      → IsNonneg cb.config.half_open_max_requests
      → IsNonneg cb.half_open_reqs
      → (cb.config.half_open_max_requests ≤ cb.half_open_reqs)
          × ((record_success fl now cb).state ≡ closed)
          × ((record_success fl now cb).total_reqs ≡ 0)
          × ((record_success fl now cb).half_open_reqs ≡ 0)
        ⊎ (cb.half_open_reqs < cb.config.half_open_max_requests)
          × ((record_success fl now cb).state ≡ half_open)
  unfolding record_success
  half_open_closes now cb s f m r = ground arith
