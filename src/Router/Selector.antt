-- ===== src/Router/Selector.antt =====
-- `ModelSelector` of plugins/llmrouter/router.go, with the settings of config.go.
-- The maps `ProviderConfigs` and `circuits` are lists of entries, in the order in which Go goes
-- through them.
use cloud_agent_platform.Base.{
  ℕ, ◌+◌, ◌%◌, String, Bool, true, false, not, ◌&&◌, ◌||◌, Option, none, some, List, [], ◌∷◌, ◌==◌,
  string_comparable, if◌then◌else◌, length, get_elem?, contains,
}
use cloud_agent_platform.Base.Int64.{slt}
use cloud_agent_platform.Base.Float.{Float}
use cloud_agent_platform.Breaker.{
  CircuitState, closed, CircuitBreakerConfig, CircuitBreaker, is_open, new_circuit_breaker,
}
use cloud_agent_platform.Breaker
use cloud_agent_platform.Retry.{RetryConfig}

abbrev pub claude_sonnet : String
claude_sonnet = "claude-sonnet-4"

abbrev pub claude_haiku : String
claude_haiku = "claude-haiku-3"

abbrev pub glm_5 : String
glm_5 = "glm-5.1"

abbrev pub glm_5_air : String
glm_5_air = "glm-5.1-air"

pub record ProviderCapabilities : Type 0 where
  pub supports_streaming : Bool
  pub supports_reasoning : Bool
  pub supports_embeddings : Bool
  pub max_context_tokens : ℕ

abbrev pub is_closed : CircuitState → Bool
is_closed closed = true
is_closed _ = false

-- The routing strategies; a string that is none of them acts as `task_type`.
pub data RoutingStrategy : Type 0 where
  task_type cost latency capability round_robin : RoutingStrategy

module _ (fl : Float) where
  open fl use {F, of_int, greater}

  pub record ProviderConfig : Type 0 where
    pub api_key : String
    pub endpoint : String
    pub timeout : ℕ
    pub max_retries : ℕ
    pub rate_limit : F
    pub task_preferences : List String
    pub cost_per_1k_tokens : F
    pub avg_latency_ms : ℕ
    pub max_tokens : ℕ
    pub capabilities : ProviderCapabilities

  abbrev pub Providers : Type 0
  Providers = List (String × ProviderConfig)

  abbrev pub Circuits : Type 0
  Circuits = List (String × CircuitBreaker fl)

  pub record Config : Type 0 where
    pub primary_provider : String
    pub enable_adaptive_routing : Bool
    pub retry_config : RetryConfig
    pub circuit_breaker_config : CircuitBreakerConfig fl
    pub provider_configs : Providers
    pub fallback_order : List String

  pub record ModelSelector : Type 0 where
    pub config : Config
    pub circuits : Circuits
    pub round_robin_index : ℕ  -- uint32

  unfoldable pub make_circuits : CircuitBreakerConfig fl → ℕ → Providers → Circuits
  unfolding new_circuit_breaker
  make_circuits c now [] = []
  make_circuits c now ((model, p) ∷ ps) =
      (model, new_circuit_breaker fl c now) ∷ make_circuits c now ps

  unfoldable pub new_model_selector : Config → ℕ → ModelSelector
  unfolding make_circuits
  new_model_selector config now = record {
    config = config;
    circuits = make_circuits config.circuit_breaker_config now config.provider_configs;
    round_robin_index = 0;
  }

  unfoldable pub state_in : String → Circuits → CircuitState
  state_in model [] = closed
  state_in model ((k, cb) ∷ cs) = if k == model then cb.state else state_in model cs

  unfoldable pub get_circuit_state : String → ModelSelector → CircuitState
  unfolding state_in
  get_circuit_state model s = state_in model s.circuits

  unfoldable pub is_model_available : String → ModelSelector → Bool
  unfolding get_circuit_state
  is_model_available model s = not (is_open (get_circuit_state model s))

  -- The loops skip a model whose circuit is open.
  unfoldable pub preferring : String → Circuits → Providers → Option String
  unfolding state_in contains
  preferring task cs [] = none
  preferring task cs ((model, p) ∷ ps) =
      if not (is_open (state_in model cs)) && contains task p.task_preferences
      then some model
      else preferring task cs ps

  unfoldable pub select_by_task_type : String → ModelSelector → String
  unfolding preferring
  select_by_task_type task s = elim (preferring task s.circuits s.config.provider_configs) [
    | none ↦ s.config.primary_provider
    | some model ↦ model
  ]

  -- The loop carries the best model and its cost, which is below 0 at first.
  unfoldable pub cheapest_from : Circuits → Providers → String → F → String
  unfolding state_in
  cheapest_from cs [] cheapest min_cost = cheapest
  cheapest_from cs ((model, p) ∷ ps) cheapest min_cost =
      let better =
        not (is_open (state_in model cs))
        && (greater (of_int 0) min_cost || greater min_cost p.cost_per_1k_tokens) in
      cheapest_from cs ps (if better then model else cheapest)
        (if better then p.cost_per_1k_tokens else min_cost)

  unfoldable pub or_primary : String → ModelSelector → String
  or_primary model s = if model == "" then s.config.primary_provider else model

  unfoldable pub select_by_cost : ModelSelector → String
  unfolding cheapest_from or_primary
  select_by_cost s =
      or_primary
        (cheapest_from s.circuits s.config.provider_configs "" (of_int 18446744073709551615)) s

  unfoldable pub fastest_from : Circuits → Providers → String → ℕ → String
  unfolding state_in
  fastest_from cs [] fastest min_latency = fastest
  fastest_from cs ((model, p) ∷ ps) fastest min_latency =
      let better =
        not (is_open (state_in model cs))
        && (slt min_latency 0 || slt p.avg_latency_ms min_latency) in
      fastest_from cs ps (if better then model else fastest)
        (if better then p.avg_latency_ms else min_latency)

  unfoldable pub select_by_latency : ModelSelector → String
  unfolding fastest_from or_primary
  select_by_latency s =
      or_primary (fastest_from s.circuits s.config.provider_configs "" 18446744073709551615) s

  unfoldable pub closed_models : Circuits → List String
  closed_models [] = []
  closed_models ((model, cb) ∷ cs) =
      if is_closed cb.state then model ∷ closed_models cs else closed_models cs

  -- The element at the index, or the primary provider of an empty list.
  unfoldable pub pick : List String → ModelSelector → ModelSelector × String
  pick [] s = (s, s.config.primary_provider)
  pick (m ∷ ms) s = (
    record s { round_robin_index = (s.round_robin_index + 1) % 4294967296 },
    elim (get_elem? (m ∷ ms) (s.round_robin_index % (length (m ∷ ms) % 4294967296))) [
      | none ↦ ""
      | some model ↦ model
    ],
  )

  unfoldable pub select_by_round_robin : ModelSelector → ModelSelector × String
  unfolding closed_models pick
  select_by_round_robin s = pick (closed_models s.circuits) s

  unfoldable pub select_model : String → RoutingStrategy → ModelSelector → ModelSelector × String
  unfolding select_by_task_type select_by_cost select_by_latency select_by_round_robin
  select_model task task_type s = (s, select_by_task_type task s)
  select_model task cost s = (s, select_by_cost s)
  select_model task latency s = (s, select_by_latency s)
  select_model task capability s = (s, select_by_task_type task s)
  select_model task round_robin s = select_by_round_robin s

  unfoldable pub change_circuit :
      (CircuitBreaker fl → CircuitBreaker fl) → String → Circuits → Circuits
  change_circuit f model [] = []
  change_circuit f model ((k, cb) ∷ cs) =
      if k == model then (k, f cb) ∷ cs else (k, cb) ∷ change_circuit f model cs

  unfoldable pub record_success : ℕ → String → ModelSelector → ModelSelector
  unfolding change_circuit Breaker.record_success
  record_success now model s = record s {
    circuits = change_circuit (Breaker.record_success fl now) model s.circuits;
  }

  unfoldable pub record_failure : ℕ → String → ModelSelector → ModelSelector
  unfolding change_circuit Breaker.record_failure
  record_failure now model s = record s {
    circuits = change_circuit (Breaker.record_failure fl now) model s.circuits;
  }
