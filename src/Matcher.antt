-- ===== src/Matcher.antt =====
-- internal/orchestrator/matcher/matcher.go: the scores of the agents for a task, and the best agents.
pub mod Best
mod Examples
use cloud_agent_platform.Base.{
  ℕ, ◌+◌, ◌%◌, String, Bool, true, false, not, Option, none, some, List, [], ◌∷◌, nat_beq,
  if◌then◌else◌, length, take, map, contains, string_comparable,
}
use cloud_agent_platform.Base.Int64.{modulus, sle}
use cloud_agent_platform.Base.Float.{Float}
use cloud_agent_platform.Lifecycle.{
  AgentRole, observer, strategist, executor, guardian, tester, researcher, SubtaskType, analysis,
  coding, review, testing, research,
}
use cloud_agent_platform.Sorting.{sort_by}

-- The type of a task is a string: a constant of the domain or any other text.
pub data TaskType : Type 0 where
  known : SubtaskType → TaskType
  any_other : String → TaskType

-- The roles that may take a task of a type: all, of a type that is not known.
unfoldable pub is_role_compatible : AgentRole → TaskType → Bool
is_role_compatible role (known analysis) = elim role [
  | observer ↦ true
  | strategist ↦ true
  | researcher ↦ true
  | _ ↦ false
]
is_role_compatible role (known coding) = elim role [ executor ↦ true | _ ↦ false ]
is_role_compatible role (known review) = elim role [
  | guardian ↦ true
  | strategist ↦ true
  | _ ↦ false
]
is_role_compatible role (known testing) = elim role [ tester ↦ true | _ ↦ false ]
is_role_compatible role (known research) = elim role [
  | researcher ↦ true
  | observer ↦ true
  | _ ↦ false
]
is_role_compatible role (any_other name) = true

module _ (fl : Float) where
  open fl use {F, of_int, of_bits, add, subtract, multiply, divide, maximum, at_most, greater}

  pub record AgentProfile : Type 0 where
    pub agent_template_id : String
    pub role : AgentRole
    pub capability_tags : List String
    pub historical_success_count : ℕ
    pub historical_failure_count : ℕ
    pub cost_per_execution : F
    pub model_name : String

  pub record TaskRequirements : Type 0 where
    pub required_capabilities : List String
    pub required_role : AgentRole
    pub budget : F
    pub task_type : TaskType
    pub tags : List String

  pub record MatchResult : Type 0 where
    pub agent : AgentProfile
    pub total_score : F
    pub capability_score : F
    pub success_rate_score : F
    pub cost_efficiency_score : F

  -- The constants 0.5, 0.3, 0.2 and 0.8.
  abbrev pub weight_capability : F
  weight_capability = of_bits 4602678819172646912

  abbrev pub weight_success_rate : F
  weight_success_rate = of_bits 4599075939470750515

  abbrev pub weight_cost_efficiency : F
  weight_cost_efficiency = of_bits 4596373779694328218

  abbrev pub default_rate : F
  default_rate = of_bits 4602678819172646912

  abbrev pub default_capability : F
  default_capability = of_bits 4605380978949069210

  unfoldable pub success_rate : AgentProfile → F
  success_rate p =
      let total = (p.historical_success_count + p.historical_failure_count) % modulus in
      if nat_beq total 0
      then default_rate
      else divide (of_int p.historical_success_count) (of_int total)

  -- The loops over the capabilities and the tags. Their two float64 counters hold whole numbers, which
  -- are exact below 2 ^ 53.
  unfoldable pub match_count : List String → List String → ℕ
  unfolding contains
  match_count offered [] = 0
  match_count offered (c ∷ cs) =
      if contains c offered then match_count offered cs + 1 else match_count offered cs

  unfoldable pub calculate_capability_score : AgentProfile → TaskRequirements → F
  unfolding match_count
  calculate_capability_score p reqs =
      let wanted = length reqs.required_capabilities + length reqs.tags in
      let matched =
        match_count p.capability_tags reqs.required_capabilities
        + match_count p.capability_tags reqs.tags in
      if nat_beq wanted 0 then default_capability else divide (of_int matched) (of_int wanted)

  unfoldable pub calculate_cost_efficiency : AgentProfile → TaskRequirements → F
  calculate_cost_efficiency p reqs =
      let ratio = divide p.cost_per_execution reqs.budget in
      let halved = subtract (of_int 1) (multiply ratio (of_bits 4602678819172646912)) in
      if at_most reqs.budget (of_int 0)
      then default_rate
      else if at_most p.cost_per_execution reqs.budget
      then halved
      else if at_most (of_int 1) ratio
      then maximum (of_int 0) (subtract (of_int 1) ratio)
      else halved

  -- The scores of an agent whose role may take the task.
  unfoldable pub match_result : TaskRequirements → AgentProfile → MatchResult
  unfolding success_rate calculate_capability_score calculate_cost_efficiency
  match_result reqs p =
      let capability = calculate_capability_score p reqs in
      let rate = success_rate p in
      let cost = calculate_cost_efficiency p reqs in
      record {
        agent = p;
        total_score =
            add (add (multiply capability weight_capability) (multiply rate weight_success_rate))
              (multiply cost weight_cost_efficiency);
        capability_score = capability;
        success_rate_score = rate;
        cost_efficiency_score = cost;
      }

  unfoldable pub score : TaskRequirements → AgentProfile → Option MatchResult
  unfolding is_role_compatible match_result
  score reqs p =
      if not (is_role_compatible p.role reqs.task_type) then none else some (match_result reqs p)

  unfoldable pub score_all : TaskRequirements → List AgentProfile → List MatchResult
  unfolding score
  score_all reqs [] = []
  score_all reqs (p ∷ ps) = elim (score reqs p) [
    | none ↦ score_all reqs ps
    | some result ↦ result ∷ score_all reqs ps
  ]

  -- The order of the results: the higher total score first.
  abbrev pub score_less : MatchResult → MatchResult → Bool
  score_less a b = greater a.total_score b.total_score

  abbrev pub first_agent : List MatchResult → Option AgentProfile
  first_agent [] = none
  first_agent (best ∷ results) = some best.agent

  unfoldable pub find_best_agent : TaskRequirements → List AgentProfile → Option AgentProfile
  unfolding score_all sort_by
  find_best_agent reqs ps = first_agent (sort_by score_less (score_all reqs ps))

  -- `k` is an int.
  unfoldable pub find_top_k_agents : TaskRequirements → List AgentProfile → ℕ → List AgentProfile
  unfolding score_all sort_by
  find_top_k_agents reqs ps k =
      if sle k 0 then [] else map (λ r. r.agent) (take k (sort_by score_less (score_all reqs ps)))
