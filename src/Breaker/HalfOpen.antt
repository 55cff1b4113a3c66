-- ===== src/Breaker/HalfOpen.antt =====
-- How many requests a breaker that is no longer open lets through while no result comes back.
use Prim.Native.Nat.{min}
use cloud_agent_platform.Base.{
  ℕ, ◌+◌, ◌-◌, ◌≤◌, ◌≡◌, refl, true, false, List, [], ◌∷◌, arith, length, if◌then◌else◌, Bool-cases,
  inl, inr, ltb,
}
use cloud_agent_platform.Base.Int64.{IsNonneg}
use cloud_agent_platform.Base.Float.{Float}
use cloud_agent_platform.Breaker.{
  open_state, half_open, CircuitBreaker, allow, timeout_passed, to_half_open,
}

module _ (fl : Float) where
  -- `Allow` at each of the times; how often it said yes.
  unfoldable pub ask_all : List ℕ → CircuitBreaker fl → CircuitBreaker fl × ℕ
  ask_all [] cb = (cb, 0)
  ask_all (now ∷ ts) cb =
      let (cb', yes_once) = allow fl now cb in
      let (last, count) = ask_all ts cb' in (last, (if yes_once then 1 else 0) + count)

  allow_half_open :
      (now : ℕ) (cb : CircuitBreaker fl)
      → cb.state ≡ half_open
      → IsNonneg cb.config.half_open_max_requests
      → cb.half_open_reqs ≤ cb.config.half_open_max_requests
      → allow fl now cb ≡ (
          if ltb cb.half_open_reqs cb.config.half_open_max_requests
          then (record cb { half_open_reqs = cb.half_open_reqs + 1 }, true)
          else (cb, false))
  unfolding allow
  allow_half_open now cb s h k = ground arith

  -- In the half-open state the rest of the limit is let through, and then nothing more, at whatever
  -- times the requests come.
  half_open_admits :
      (ts : List ℕ) (cb : CircuitBreaker fl)
      → cb.state ≡ half_open
      → IsNonneg cb.config.half_open_max_requests
      → cb.half_open_reqs ≤ cb.config.half_open_max_requests
      → ((ask_all ts cb).1 ≡ min (length ts) (cb.config.half_open_max_requests - cb.half_open_reqs))
        × ((ask_all ts cb).0 ≡ record cb { half_open_reqs = cb.half_open_reqs + (ask_all ts cb).1 })
  unfolding ask_all
  half_open_admits [] cb s h k = (omega arith, ground arith)
  half_open_admits (now ∷ ts) cb s h k =
      let once = allow_half_open now cb s h k in
      let more = record cb { half_open_reqs = cb.half_open_reqs + 1 } in
      elim (Bool-cases (ltb cb.half_open_reqs cb.config.half_open_max_requests)) [
        | inl below ↦ ground (arith, half_open_admits ts more s h (ground arith))
        | inr full ↦ ground (arith, half_open_admits ts cb s h k)
      ]

  -- After the timeout of an open breaker the first request is let through, and then the whole limit
  -- of the half-open state once more: one request above `half_open_max_requests`.
  opened_admits :
      (now : ℕ) (ts : List ℕ) (cb : CircuitBreaker fl)
      → cb.state ≡ open_state
      → timeout_passed fl now cb ≡ true
      → IsNonneg cb.config.half_open_max_requests
      → (ask_all (now ∷ ts) cb).1 ≡ 1 + min (length ts) cb.config.half_open_max_requests
  unfolding ask_all allow
  opened_admits now ts cb s t h =
      ground (arith, half_open_admits ts (to_half_open fl now cb) refl h (omega arith))
