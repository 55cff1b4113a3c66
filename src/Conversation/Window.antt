-- ===== src/Conversation/Window.antt =====
-- `ContextWindow` of internal/domain/context/compress.go.
use cloud_agent_platform.Base.{ℕ, Bool, if◌then◌else◌, nat_beq}
use cloud_agent_platform.Base.Int64.{slt, sub}
use cloud_agent_platform.Base.Float.{Float}
use cloud_agent_platform.Conversation.Parts.{plus}

pub data WindowStatus : Type 0 where
  ok warning critical : WindowStatus

module _ (fl : Float) where
  open fl use {F, of_int, of_bits, divide, at_most}

  pub record ContextWindow : Type 0 where
    pub budget : ℕ
    pub warning_threshold : F
    pub critical_threshold : F

  -- The thresholds are 0.80 and 0.95.
  unfoldable pub new_context_window : ℕ → ContextWindow
  new_context_window budget = record {
    budget = budget;
    warning_threshold = of_bits 4605380978949069210;
    critical_threshold = of_bits 4606732058837280358;
  }

  abbrev pub set_warning_threshold : F → ContextWindow → ContextWindow
  set_warning_threshold threshold cw = record cw { warning_threshold = threshold }

  abbrev pub set_critical_threshold : F → ContextWindow → ContextWindow
  set_critical_threshold threshold cw = record cw { critical_threshold = threshold }

  unfoldable pub usage_level : ContextWindow → ℕ → F
  usage_level cw tokens =
      if nat_beq cw.budget 0 then of_int 1 else divide (of_int tokens) (of_int cw.budget)

  unfoldable pub window_status : ContextWindow → ℕ → WindowStatus
  unfolding usage_level
  window_status cw tokens =
      if at_most cw.critical_threshold (usage_level cw tokens)
      then critical
      else if at_most cw.warning_threshold (usage_level cw tokens)
      then warning
      else ok

  unfoldable pub should_compress : ContextWindow → ℕ → Bool
  unfolding usage_level
  should_compress cw tokens = at_most cw.critical_threshold (usage_level cw tokens)

  abbrev pub remaining : ContextWindow → ℕ → ℕ
  remaining cw tokens = if slt (sub cw.budget tokens) 0 then 0 else sub cw.budget tokens

  unfoldable pub estimate_for_add : ContextWindow → (current additional : ℕ) → WindowStatus
  unfolding window_status
  estimate_for_add cw current additional = window_status cw (plus current additional)
