-- ===== src/Router/Examples.antt =====
-- The theorems of the router at a small configuration, with float64 as whole hundredths.
use cloud_agent_platform.Base.{
  ℕ, ◌≡◌, refl, ◌⊎◌, String, Bool, true, false, Option, none, some, [], ◌∷◌, arith,
  string_comparable, contains,
}
use cloud_agent_platform.Base.Float.{hundredths}
use cloud_agent_platform.Retry.{retryable_error, Round}
use cloud_agent_platform.Router.Selector.{
  ProviderConfig, Config, ModelSelector, claude_haiku, claude_sonnet, state_in, select_by_latency,
  select_by_task_type, select_by_round_robin,
}
use cloud_agent_platform.Router.{
  LlmRequest, RouterError, Answers, complete, chosen_model, called_model,
}
use cloud_agent_platform.Router.State.{Router, new_router, register_provider, handle_failure}
use cloud_agent_platform.Router.Circuits.{IsOpen, complete_all, complete_all-IsOpen}
use cloud_agent_platform.Router.Depth.{complete-returns}
use cloud_agent_platform.Router.Replies.{complete-done}
use cloud_agent_platform.Router.Latency.{NoneAvailable, IsFastest, select_by_latency_lem}

abbrev provider : (cost latency : ℕ) → String → ProviderConfig hundredths
provider cost latency task = record {
  api_key = "";
  endpoint = "";
  timeout = 0;
  max_retries = 0;
  rate_limit = 0;
  task_preferences = task ∷ [];
  cost_per_1k_tokens = cost;
  avg_latency_ms = latency;
  max_tokens = 1000;
  capabilities = record {
    supports_streaming = true;
    supports_reasoning = false;
    supports_embeddings = true;
    max_context_tokens = 1000;
  };
}

abbrev settings : Bool → Config hundredths
settings adaptive = record {
  primary_provider = claude_sonnet;
  enable_adaptive_routing = adaptive;
  retry_config = record {
    max_attempts = 3;
    initial_delay_ms = 100;
    max_delay_ms = 5000;
    multiplier = 2;
    jitter_percent = 20;
  };
  circuit_breaker_config = record {
    error_rate_threshold = 50;
    min_requests = 2;
    half_open_max_requests = 3;
    open_timeout_ms = 30000;
  };
  provider_configs =
      (claude_haiku, provider 3 500 "simple") ∷ (claude_sonnet, provider 15 2000 "coding") ∷ [];
  fallback_order = [];
}

abbrev router : Bool → Router hundredths
router adaptive =
    register_provider hundredths claude_haiku
      (register_provider hundredths claude_sonnet (new_router hundredths (settings adaptive) 0))

abbrev request : LlmRequest
request = record {
  task_type = "simple";
  model = "";
  prompt = "p";
  system = "";
  max_tokens = 10;
  temperature = 0;
  stop_words = [];
}

-- The context is done before an attempt, or the attempt fails.
abbrev round : Bool → Round
round done = record {
  done_before = done;
  returned = some (retryable_error true "overloaded");
  delay = 0;
  done_during = false;
}

abbrev refusing : Bool → ℕ → Answers
refusing done level = record {
  rounds = λ model attempt. round done;
  resp = λ model attempt. "text";
  fallback_error = λ model. some (retryable_error true "overloaded");
  fallback_resp = λ model. "text";
  now = 7;
}

-- Two failures open the circuit of a model.
abbrev tripped : Router hundredths
tripped =
    handle_failure hundredths 5 claude_haiku
      (handle_failure hundredths 4 claude_haiku (router false))

complete_all-IsOpen_example :
    IsOpen hundredths claude_haiku
      (complete_all hundredths claude_haiku ((refusing false, request) ∷ []) tripped)
unfolding handle_failure register_provider new_router state_in
complete_all-IsOpen_example =
    complete_all-IsOpen hundredths claude_haiku ((refusing false, request) ∷ []) tripped refl

complete-returns_example :
    (r' : Router hundredths) × (response : Option String) × (err : Option RouterError) × (complete
        hundredths
        (refusing false)
        request
        (router true)
      ≡ some (r', response, err))
complete-returns_example = complete-returns hundredths (refusing false) request (router true)

complete-done_example :
    (r' : Router hundredths) × (complete hundredths (refusing true) request (router false)
      ≡ some (r', none, none))
unfolding chosen_model register_provider new_router contains
complete-done_example =
    complete-done hundredths (refusing true) request (router false) refl refl
      (λ c. (retryable_error true "overloaded", refl)) (omega arith) (omega arith) refl

-- The alternative is called in place of the model with the open circuit.
alternative_called : called_model hundredths claude_haiku tripped ≡ claude_sonnet
unfolding called_model handle_failure register_provider new_router contains
alternative_called = refl

abbrev selector : ModelSelector hundredths
selector = (router false).selector

select_by_latency_lem_example :
    ((select_by_latency hundredths selector ≡ selector.config.primary_provider)
      × NoneAvailable hundredths selector.circuits selector.config.provider_configs)
    ⊎ IsFastest hundredths selector.circuits selector.config.provider_configs
        (select_by_latency hundredths selector)
unfolding register_provider new_router contains
select_by_latency_lem_example =
    select_by_latency_lem hundredths selector (omega arith, (omega arith, tt)) (refl, (refl, tt))

selected :
    (select_by_latency hundredths selector ≡ claude_haiku)
    × (select_by_task_type hundredths "coding" selector ≡ claude_sonnet)
    × ((select_by_round_robin hundredths selector).1 ≡ claude_haiku)
unfolding select_by_latency select_by_task_type select_by_round_robin register_provider new_router
    contains
selected = (refl, refl, refl)
