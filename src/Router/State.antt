-- ===== src/Router/State.antt =====
-- plugins/llmrouter/router.go: the state of the router, its counters and the moves between models.
use cloud_agent_platform.Base.{
  ℕ, String, not, ◌&&◌, ◌||◌, List, [], ◌∷◌, ◌==◌, string_comparable, if◌then◌else◌, contains,
}
use cloud_agent_platform.Base.Int64.{inc, sle}
use cloud_agent_platform.Base.Maps.{update}
use cloud_agent_platform.Base.Float.{Float}
use cloud_agent_platform.Router.Selector.{
  Config, ModelSelector, claude_sonnet, claude_haiku, glm_5, glm_5_air, new_model_selector,
  is_model_available, record_failure, record_success,
}

-- `UpgradeModel` and `DowngradeModel`
unfoldable pub upgrade_model : String → String
upgrade_model model =
    if model == claude_haiku
    then claude_sonnet
    else if model == glm_5_air
    then glm_5
    else if model == claude_sonnet || model == glm_5
    then model
    else claude_sonnet

unfoldable pub downgrade_model : String → String
downgrade_model model =
    if model == claude_sonnet
    then claude_haiku
    else if model == glm_5
    then glm_5_air
    else if model == claude_haiku || model == glm_5_air
    then model
    else claude_sonnet

module _ (fl : Float) where
  pub record Router : Type 0 where
    pub config : Config fl
    pub providers : List String
    pub selector : ModelSelector fl
    pub consecutive_fails : String → ℕ
    pub consecutive_successes : String → ℕ

  unfoldable pub new_router : Config fl → ℕ → Router
  unfolding new_model_selector
  new_router config now = record {
    config = config;
    providers = [];
    selector = new_model_selector fl config now;
    consecutive_fails = λ model. 0;
    consecutive_successes = λ model. 0;
  }

  unfoldable pub register_provider : String → Router → Router
  unfolding contains
  register_provider name r =
      if contains name r.providers then r else record r { providers = name ∷ r.providers }

  unfoldable pub handle_failure : ℕ → String → Router → Router
  unfolding record_failure
  handle_failure now model r = record r {
    consecutive_fails = update r.consecutive_fails model (inc (r.consecutive_fails model));
    consecutive_successes = update r.consecutive_successes model 0;
    selector = record_failure fl now model r.selector;
  }

  unfoldable pub handle_success : ℕ → String → Router → Router
  unfolding record_success
  handle_success now model r = record r {
    consecutive_successes =
        update r.consecutive_successes model (inc (r.consecutive_successes model));
    selector = record_success fl now model r.selector;
    consecutive_fails = update r.consecutive_fails model 0;
  }

  unfoldable pub try_upgrade : String → Router → String
  unfolding upgrade_model is_model_available
  try_upgrade current r =
      let upgraded = upgrade_model current in
      if upgraded == current
      then current
      else if not (is_model_available fl upgraded r.selector)
      then current
      else if sle 3 (r.consecutive_fails current)
      then upgraded
      else current

  unfoldable pub try_downgrade : String → Router → String
  unfolding downgrade_model is_model_available
  try_downgrade current r =
      let downgraded = downgrade_model current in
      if downgraded == current
      then current
      else if not (is_model_available fl downgraded r.selector)
      then current
      else if sle 10 (r.consecutive_successes current)
      then downgraded
      else current

  -- The loop over the providers; "" if there is none.
  unfoldable pub find_alternative : String → ModelSelector fl → List String → String
  unfolding is_model_available
  find_alternative unavailable s [] = ""
  find_alternative unavailable s (model ∷ models) =
      if not (model == unavailable) && is_model_available fl model s
      then model
      else find_alternative unavailable s models
