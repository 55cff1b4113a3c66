-- ===== src/Matcher/Examples.antt =====
-- The choice of an agent at concrete profiles.
use cloud_agent_platform.Base.{
  ℕ, String, false, none, some, List, [], ◌∷◌, ◌++◌, ◌≡◌, ◌⊎◌, refl, arith, All,
}
use cloud_agent_platform.Base.Float.{hundredths}
use cloud_agent_platform.Lifecycle.{AgentRole, executor, tester, coding}
use cloud_agent_platform.Matcher.{
  known, AgentProfile, TaskRequirements, MatchResult, score_all, find_best_agent,
}
use cloud_agent_platform.Matcher.Best.{IsOrder, Fits, FitsNot, find_best_agent_lem}

hundredths-IsOrder : IsOrder hundredths
hundredths-IsOrder = record { asym = λ x y h. ground arith; trans = λ x y z o h k. ground arith }

abbrev profile : String → AgentRole → ℕ → AgentProfile hundredths
profile id role successes = record {
  agent_template_id = id;
  role = role;
  capability_tags = "go" ∷ [];
  historical_success_count = successes;
  historical_failure_count = 1;
  cost_per_execution = 100;
  model_name = "glm-5.1";
}

abbrev wanted : TaskRequirements hundredths
wanted = record {
  required_capabilities = "go" ∷ [];
  required_role = executor;
  budget = 200;
  task_type = known coding;
  tags = [];
}

abbrev agents : List (AgentProfile hundredths)
agents = profile "a" executor 1 ∷ profile "b" tester 9 ∷ profile "c" executor 3 ∷ []

find_best_agent_lem_example :
    ((find_best_agent hundredths wanted agents ≡ none)
      × All (FitsNot hundredths hundredths-IsOrder wanted) agents)
    ⊎ ((r : MatchResult hundredths) × (before after : List (MatchResult hundredths)) × (before
            ++ r ∷ after
          ≡ score_all hundredths wanted agents)
        × (find_best_agent hundredths wanted agents ≡ some r.agent)
        × Fits hundredths hundredths-IsOrder wanted r.agent
        × All
            (λ q. hundredths.greater q.total_score r.total_score ≡ false)
            (score_all hundredths wanted agents))
unfolding score_all
find_best_agent_lem_example =
    find_best_agent_lem hundredths hundredths-IsOrder wanted agents (refl, (refl, tt))

best_of_agents : find_best_agent hundredths wanted agents ≡ some (profile "c" executor 3)
unfolding find_best_agent
best_of_agents = refl
