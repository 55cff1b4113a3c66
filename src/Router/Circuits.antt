-- ===== src/Router/Circuits.antt =====
-- A circuit that has opened stays open: the router records results, and never calls `Allow`.
use mathlib.Core.Path.{subst}
use cloud_agent_platform.Base.{
  ℕ, zero, suc, ◌+◌, ◌≡◌, inl, inr, String, Option, none, some, List, [], ◌∷◌, arith,
  string_comparable,
}
use cloud_agent_platform.Base.Float.{Float}
use cloud_agent_platform.Breaker.{CircuitBreaker, CircuitState, open_state}
use cloud_agent_platform.Breaker
use cloud_agent_platform.Router.Selector.{Circuits, state_in, change_circuit}
use cloud_agent_platform.Router.{
  LlmRequest, RouterError, Answers, complete_level, complete_from, complete,
}
use cloud_agent_platform.Router.State.{Router, handle_failure, handle_success}
use cloud_agent_platform.Router.Levels.{LevelHas, complete_level-LevelHas, Level-cases}

module _ (fl : Float) (model : String) where
  success-open_state :
      (now : ℕ) (cb : CircuitBreaker fl)
      → cb.state ≡ open_state
      → (Breaker.record_success fl now cb).state ≡ open_state
  unfolding Breaker.record_success
  success-open_state now cb h = ground arith

  failure-open_state :
      (now : ℕ) (cb : CircuitBreaker fl)
      → cb.state ≡ open_state
      → (Breaker.record_failure fl now cb).state ≡ open_state
  unfolding Breaker.record_failure
  failure-open_state now cb h = ground arith

  change_circuit-open :
      (f : CircuitBreaker fl → CircuitBreaker fl) (k : String) (cs : Circuits fl)
      → ((cb : CircuitBreaker fl) → cb.state ≡ open_state → (f cb).state ≡ open_state)
      → state_in fl model cs ≡ open_state
      → state_in fl model (change_circuit fl f k cs) ≡ open_state
  unfolding state_in change_circuit
  change_circuit-open f k [] keep h = h
  change_circuit-open f k ((j, cb) ∷ cs) keep h =
      ground (arith, change_circuit-open f k cs keep, keep cb)

  -- The circuit of the model is open.
  abbrev pub IsOpen : Router fl → Type 0
  IsOpen r = state_in fl model r.selector.circuits ≡ open_state

  handle_failure-IsOpen :
      (now : ℕ) (k : String) (r : Router fl) → IsOpen r → IsOpen (handle_failure fl now k r)
  unfolding handle_failure
  handle_failure-IsOpen now k r h =
      change_circuit-open (Breaker.record_failure fl now) k r.selector.circuits
        (failure-open_state now) h

  handle_success-IsOpen :
      (now : ℕ) (k : String) (r : Router fl) → IsOpen r → IsOpen (handle_success fl now k r)
  unfolding handle_success
  handle_success-IsOpen now k r h =
      change_circuit-open (Breaker.record_success fl now) k r.selector.circuits
        (success-open_state now) h

  -- What a call of `Complete` leaves.
  abbrev pub router_after :
      Router fl → Option (Router fl × Option String × Option RouterError) → Router fl
  router_after r none = r
  router_after r (some (r', response, err)) = r'

  router_after-IsOpen :
      (r r' : Router fl) (o : Option (Router fl × Option String × Option RouterError))
      → IsOpen r
      → IsOpen (router_after r' o)
      → IsOpen (router_after r o)
  router_after-IsOpen r r' none h k = h
  router_after-IsOpen r r' (some (r'', response, err)) h k = k

  complete_from-IsOpen :
      (fuel level : ℕ) (answers : ℕ → Answers) (req : LlmRequest) (r : Router fl)
      → IsOpen r
      → IsOpen (router_after r (complete_from fl fuel level answers req r))
  unfolding complete_from
  complete_from-IsOpen zero level answers req r h = h
  complete_from-IsOpen (suc fuel) level answers req r h =
      let has =
        complete_level-LevelHas fl IsOpen handle_failure-IsOpen handle_success-IsOpen
          (answers level) req r h in
      elim (Level-cases fl (complete_level fl (answers level) req r)) [
        | inl (r', response, err, e) ↦
            rw (e, complete_from)
              (subst (LevelHas fl IsOpen handle_failure-IsOpen handle_success-IsOpen) e has)
        | inr (u, r', e) ↦
            let up = subst (LevelHas fl IsOpen handle_failure-IsOpen handle_success-IsOpen) e has in
            let rest = complete_from fl fuel (level + 1) answers (record req { model = u }) r' in
            rw (e, complete_from)
              (router_after-IsOpen r r' rest h
                (complete_from-IsOpen fuel (level + 1) answers (record req { model = u }) r' up.0))
      ]

  -- Requests one after the other.
  unfoldable pub complete_all : List ((ℕ → Answers) × LlmRequest) → Router fl → Router fl
  unfolding complete
  complete_all [] r = r
  complete_all ((answers, req) ∷ qs) r =
      complete_all qs (router_after r (complete fl answers req r))

  -- A model whose circuit is open has an open circuit after any requests, whatever is answered and
  -- however late they come.
  pub complete_all-IsOpen :
      (qs : List ((ℕ → Answers) × LlmRequest)) (r : Router fl)
      → IsOpen r
      → IsOpen (complete_all qs r)
  unfolding complete_all complete
  complete_all-IsOpen [] r h = h
  complete_all-IsOpen ((answers, req) ∷ qs) r h =
      complete_all-IsOpen qs (router_after r (complete fl answers req r))
        (complete_from-IsOpen 2 0 answers req r h)
