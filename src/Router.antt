-- ===== src/Router.antt =====
-- plugins/llmrouter/router.go: the choice of a model, the fallback to other providers and the
-- upgrade to a more capable model. `ModelSelector` and the constants of types.go and config.go are in
-- Router/Selector.
-- A provider is known by its name; what it answers is an argument, `Answers`. One call of a method
-- runs alone.
pub mod Selector
pub mod State
pub mod Levels
pub mod Circuits
pub mod Depth
pub mod Replies
pub mod Latency
mod Examples
use cloud_agent_platform.Base.{
  ℕ, zero, suc, ◌+◌, ◌-◌, String, Bool, true, false, not, ◌&&◌, ◌||◌, Option, none, some, List, [],
  ◌∷◌, ◌==◌, nat_beq, string_comparable, if◌then◌else◌, contains,
}
use cloud_agent_platform.Base.Int64.{inc, sle}
use cloud_agent_platform.Base.Maps.{update}
use cloud_agent_platform.Base.Float.{Float}
use cloud_agent_platform.Retry.{CallError, Round, RetryResult, succeeded, do_with_retry}
use cloud_agent_platform.Router.Selector.{
  Config, ModelSelector, claude_sonnet, claude_haiku, glm_5, glm_5_air, new_model_selector,
  is_model_available, select_by_task_type, select_by_cost, record_failure, record_success,
}
use cloud_agent_platform.Router.State.{
  Router, handle_failure, handle_success, try_upgrade, find_alternative,
}

pub record LlmRequest : Type 0 where
  pub task_type : String
  pub model : String
  pub prompt : String
  pub system : String
  pub max_tokens : ℕ
  pub temperature : ℕ  -- float64
  pub stop_words : List String

pub data RouterError : Type 0 where
  no_provider : String → RouterError
  provider_error : CallError → RouterError

-- What the providers and the context answer during one `Complete`: each attempt of the retried call
-- of a model with its response, and the call of a model as a fallback.
pub record Answers : Type 0 where
  pub rounds : String → ℕ → Round
  pub resp : String → ℕ → String
  pub fallback_error : String → Option CallError
  pub fallback_resp : String → String
  pub now : ℕ

module _ (fl : Float) where
  -- The closure that is retried, by what it did to the router in `calls` calls.
  unfoldable pub record_calls :
      ℕ → String → (ℕ → Round) → (calls attempt : ℕ) → Router fl → Router fl
  unfolding handle_failure handle_success
  record_calls now model at zero attempt r = r
  record_calls now model at (suc calls) attempt r =
      record_calls now model at calls (attempt + 1) (elim (at attempt).returned [
        | none ↦ handle_success fl now model r
        | some err ↦ handle_failure fl now model r
      ])

  -- `lastErr` and `lastResp` after the calls.
  abbrev pub last_error : (ℕ → Round) → ℕ → Option RouterError
  last_error at zero = none
  last_error at (suc calls) = elim (at calls).returned [
    | none ↦ none
    | some err ↦ some (provider_error err)
  ]

  abbrev pub last_response : (ℕ → String) → ℕ → Option String
  last_response resp zero = none
  last_response resp (suc calls) = some (resp calls)

  -- `tryFallback`, over the order of candidates.
  unfoldable pub fallback_from :
      Answers → String → List String → Router fl → Router fl × Option String
  unfolding handle_failure handle_success is_model_available contains
  fallback_from a failed [] r = (r, none)
  fallback_from a failed (candidate ∷ candidates) r =
      let skipped = fallback_from a failed candidates r in
      let failed_too = fallback_from a failed candidates (handle_failure fl a.now candidate r) in
      if candidate == failed
      then skipped
      else if not (is_model_available fl candidate r.selector)
      then skipped
      else if not (contains candidate r.providers)
      then skipped
      else elim (a.fallback_error candidate) [
        | none ↦ (handle_success fl a.now candidate r, some (a.fallback_resp candidate))
        | some err ↦ failed_too
      ]

  unfoldable pub others : String → List String → List String
  others failed [] = []
  others failed (m ∷ ms) = if m == failed then others failed ms else m ∷ others failed ms

  abbrev pub or_default : List String → List String → List String
  or_default default [] = default
  or_default default (m ∷ ms) = m ∷ ms

  unfoldable pub try_fallback : Answers → String → Router fl → Router fl × Option String
  unfolding fallback_from others
  try_fallback a failed r =
      fallback_from a failed (or_default (others failed r.providers) r.config.fallback_order) r

  -- The model of the request, or the choice by the type of the task.
  unfoldable pub chosen_model : LlmRequest → Router fl → String
  unfolding is_model_available select_by_task_type
  chosen_model req r =
      if req.model == "" || not (is_model_available fl req.model r.selector)
      then select_by_task_type fl req.task_type r.selector
      else req.model

  -- The model that is called.
  unfoldable pub called_model : String → Router fl → String
  unfolding is_model_available find_alternative
  called_model model r =
      if is_model_available fl model r.selector
      then model
      else (let alternative = find_alternative fl model r.selector r.providers in
          if alternative == "" then model else alternative)

  -- One level of `Complete`: it returns a response and an error, either of which may be nil, or it
  -- goes on with an upgraded model.
  pub data Level : Type 0 where
    returned : Router fl → Option String → Option RouterError → Level
    upgraded : String → Router fl → Level

  -- The retried calls have failed.
  unfoldable pub after_failure : Answers → String → Option RouterError → Router fl → Level
  unfolding try_fallback try_upgrade
  after_failure a model err r =
      let (r', response) = try_fallback a model r in
      elim response [
        | some resp ↦ returned r' (some resp) none
        | none ↦
            let next = try_upgrade fl model r' in
            if r.config.enable_adaptive_routing && (not (next == model) && not (next == ""))
            then upgraded next r'
            else returned r' none err
      ]

  -- The retried calls have ended with a result, after so many calls.
  unfoldable pub after_retry : Answers → String → RetryResult × ℕ → Router fl → Level
  unfolding record_calls after_failure
  after_retry a model (succeeded, calls) r =
      returned (record_calls a.now model (a.rounds model) calls 0 r)
        (last_response (a.resp model) calls) none
  after_retry a model (_, calls) r =
      after_failure a model (last_error (a.rounds model) calls)
        (record_calls a.now model (a.rounds model) calls 0 r)

  unfoldable pub call_model : Answers → String → Router fl → Level
  unfolding do_with_retry after_retry
  call_model a model r =
      after_retry a model (do_with_retry r.config.retry_config (a.rounds model)) r

  unfoldable pub complete_level : Answers → LlmRequest → Router fl → Level
  unfolding chosen_model called_model call_model contains
  complete_level a req r =
      let model = chosen_model req r in
      if contains model r.providers
      then call_model a (called_model model r) r
      else returned r none (some (no_provider model))

  -- `Complete`, which calls itself after an upgrade; the answers are given for each level. `none`
  -- means that the fuel ran out.
  unfoldable pub complete_from :
      (fuel level : ℕ)
      → (ℕ → Answers)
      → LlmRequest
      → Router fl
      → Option (Router fl × Option String × Option RouterError)
  unfolding complete_level
  complete_from zero level answers req r = none
  complete_from (suc fuel) level answers req r = elim (complete_level (answers level) req r) [
    | returned r' response err ↦ some (r', response, err)
    | upgraded model r' ↦ complete_from fuel (level + 1) answers (record req { model = model }) r'
  ]

  -- No model is upgraded twice.
  unfoldable pub complete :
      (ℕ → Answers)
      → LlmRequest
      → Router fl
      → Option (Router fl × Option String × Option RouterError)
  unfolding complete_from
  complete answers req r = complete_from 2 0 answers req r

  -- `Stream`: the provider that is called, or the error.
  unfoldable pub stream : LlmRequest → Router fl → Option String × Option RouterError
  unfolding chosen_model contains
  stream req r =
      let model = chosen_model req r in
      if contains model r.providers then (some model, none) else (none, some (no_provider model))

  -- `Embed` records nothing; it returns the response and the error.
  unfoldable pub embed : Answers → Router fl → Option String × Option RouterError
  unfolding select_by_cost do_with_retry contains
  embed a r =
      let model = select_by_cost fl r.selector in
      let (result, calls) = do_with_retry r.config.retry_config (a.rounds model) in
      if contains model r.providers
      then elim result [
        | succeeded ↦ (last_response (a.resp model) calls, none)
        | _ ↦ (none, last_error (a.rounds model) calls)
      ]
      else (none, some (no_provider model))
