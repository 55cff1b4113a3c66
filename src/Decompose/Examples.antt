-- ===== src/Decompose/Examples.antt =====
-- The theorems of the decomposition at concrete tasks.
use Prim.Native.String.count
use Prim.Native.String.{count}
use mathlib.Core.Path.{subst}
use cloud_agent_platform.Base.{
  ℕ, zero, suc, arith, ◌==◌, Bool-cases, inl, inr, ◌<◌, ◌≤◌, ◌≡◌, ◌∙◌, ap, refl, sym, ◌⊎◌, String,
  true, Option, none, some, List, [], ◌∷◌, string_comparable, contains, map,
}
use cloud_agent_platform.Lifecycle.{SubtaskType, research, coding, testing}
use cloud_agent_platform.Lifecycle.Entity.{Task, Subtask, new_task, new_subtask}
use cloud_agent_platform.Decompose.Order.{DependencyGraph, compute_execution_order}
use cloud_agent_platform.Decompose.Order.Complete.{
  IsOrderable, IsExecutionOrder, compute_execution_order_lem,
}
use cloud_agent_platform.Decompose.Dependencies.{analyze_dependencies, subtask_ids, get_deps}
use cloud_agent_platform.Decompose.Counting.{count as count_in, missing, edges, unmet, earlier}
use cloud_agent_platform.Decompose.Dependencies.Exact.{analyze_dependencies_lem, waited_for}
use cloud_agent_platform.Decompose.Priorities.{assign_priorities}
use cloud_agent_platform.Decompose.Priorities.Inverted.{assign_priorities_lem, dependents}
use cloud_agent_platform.Decompose.Goal.{
  by_module, TaskComponent, parse_task_goal, extract_module_name,
}
use cloud_agent_platform.Decompose.Decomposer.{
  DecompositionResult, decompose_task, panicked, decomposed, default_decompose_options,
  limit_subtasks, chosen_strategy, generated_subtasks,
}
use cloud_agent_platform.Decompose.Decomposer.Whole.{IsPlan, decompose_task_lem}

abbrev subtask : String → SubtaskType → Subtask
subtask id type = new_subtask id "t1" type "work" "executor"

-- A test, the code that it tests, and research, in an order that the types do not ask for.
abbrev three : List Subtask
three = subtask "r" research ∷ subtask "c" coding ∷ subtask "a" testing ∷ []

-- Work that is listed before what it waits for.
abbrev pair : DependencyGraph
pair = ("b", "a" ∷ []) ∷ []

b_has_edges : (x u : String) → 0 < edges pair x u → contains x ("b" ∷ "a" ∷ []) ≡ true
unfolding edges count_in contains
b_has_edges x u h = elim (Bool-cases ("b" == x)) [
  | inl e ↦ ground (arith, e)
  | inr e ↦ ground (arith, e)
]

b_after_a :
    (x : String)
    → contains x ("b" ∷ "a" ∷ []) ≡ true
    → unmet pair x (earlier x ("a" ∷ "b" ∷ [])) ≡ 0
unfolding contains unmet missing earlier
b_after_a x h = elim (Bool-cases ("b" == x)) [
  | inl e ↦
      subst (λ y. unmet pair y (earlier y ("a" ∷ "b" ∷ [])) ≡ 0)
        ((string_comparable.same_iff "b" x).0 e) refl
  | inr e ↦ rw e refl
]

pair-IsOrderable : IsOrderable ("b" ∷ "a" ∷ []) pair
unfolding contains
pair-IsOrderable = record {
  distinct = (refl, (refl, tt));
  inside = b_has_edges;
  layers = "a" ∷ "b" ∷ [];
  layers_distinct = (refl, (refl, tt));
  same = λ x. ground arith;
  layered = b_after_a;
}

compute_execution_order_lem_example :
    (order : List String) × (compute_execution_order ("b" ∷ "a" ∷ []) pair ≡ some order)
    × IsExecutionOrder ("b" ∷ "a" ∷ []) pair order
compute_execution_order_lem_example =
    compute_execution_order_lem ("b" ∷ "a" ∷ []) pair pair-IsOrderable

pair_in_order : compute_execution_order ("b" ∷ "a" ∷ []) pair ≡ some ("a" ∷ "b" ∷ [])
unfolding compute_execution_order
pair_in_order = refl

three_in_order :
    compute_execution_order (subtask_ids three) (analyze_dependencies three)
    ≡ some ("r" ∷ "c" ∷ "a" ∷ [])
unfolding compute_execution_order analyze_dependencies subtask_ids new_subtask
three_in_order = refl

-- A cycle falls back to the simple order.
cycle_in_simple_order :
    compute_execution_order ("x" ∷ "y" ∷ []) (("x", "y" ∷ []) ∷ ("y", "x" ∷ []) ∷ [])
    ≡ some ("x" ∷ "y" ∷ [])
unfolding compute_execution_order
cycle_in_simple_order = refl

analyze_dependencies_lem_example :
    contains "c" (get_deps "a" (analyze_dependencies three))
    ≡ contains "c"
        (waited_for (subtask "a" testing) (subtask "r" research ∷ subtask "c" coding ∷ []))
unfolding subtask_ids new_subtask contains
analyze_dependencies_lem_example =
    analyze_dependencies_lem "c" (subtask "r" research ∷ subtask "c" coding ∷ [])
      (subtask "a" testing) [] (refl, (refl, (refl, tt)))

assign_priorities_lem_example :
    (priority_map : String → Option ℕ) × (assign_priorities
        (subtask_ids three)
        (analyze_dependencies three)
      ≡ some priority_map)
    × ((x : String)
        → contains x (subtask_ids three) ≡ true
        → (p : ℕ) × (priority_map x ≡ some p)
          × ((dependents (analyze_dependencies three) x ≡ 0 → p ≡ 9)
              × (0 < dependents (analyze_dependencies three) x → (1 ≤ p) × (p ≤ 4))))
assign_priorities_lem_example =
    assign_priorities_lem (subtask_ids three) (analyze_dependencies three)

-- The test, which waits for both others, has the highest priority.
three_priorities :
    elim (assign_priorities (subtask_ids three) (analyze_dependencies three)) [
      | none ↦ []
      | some m ↦ map m ("r" ∷ "c" ∷ "a" ∷ [])
    ]
    ≡ some 4 ∷ some 3 ∷ some 9 ∷ []
unfolding assign_priorities analyze_dependencies subtask_ids new_subtask
three_priorities = refl

-- Identifiers that differ.
ulid : ℕ → String
ulid zero = String.[]
ulid (suc n) = String.◌∷◌ "u" (ulid n)

count-ulid : (n : ℕ) → count (ulid n) ≡ n
unfolding ulid
count-ulid zero = refl
count-ulid (suc n) = count.cons "u" (ulid n) ∙ ap suc (count-ulid n)

ulid-injective : (i j : ℕ) → ulid i ≡ ulid j → i ≡ j
ulid-injective i j e = sym (count-ulid i) ∙ ap count e ∙ count-ulid j

abbrev as_it_is : String → String
as_it_is s = s

abbrev sample : Task
sample = new_task "t1" "Please research caching and implement it; test it" "repo" "main" "c" 1

decompose_task_lem_example :
    ((chosen_strategy as_it_is sample default_decompose_options ≡ by_module)
      × (decompose_task as_it_is ulid (some sample) default_decompose_options ≡ panicked))
    ⊎ ((sts : List Subtask) × (r : DecompositionResult) × (generated_subtasks as_it_is ulid sample
            default_decompose_options
          ≡ some sts)
        × (decompose_task as_it_is ulid (some sample) default_decompose_options ≡ decomposed r)
        × IsPlan (limit_subtasks default_decompose_options sts) r)
decompose_task_lem_example =
    decompose_task_lem as_it_is ulid ulid-injective sample default_decompose_options

abbrev descriptions : List TaskComponent → List (String × SubtaskType)
descriptions [] = []
descriptions (c ∷ cs) = (c.description, c.type) ∷ descriptions cs

sample_components :
    descriptions (parse_task_goal as_it_is "Please research caching and implement it; test it")
    ≡ ("research caching", research) ∷ ("implement it", coding) ∷ ("test it", testing) ∷ []
unfolding parse_task_goal
sample_components = refl

-- A text that grows in lower case: the position found there lies beyond its end.
abbrev grows : String → String
grows s = "ⱥⱥⱥⱥⱥⱥⱥⱥ module x"

module_name_panics : extract_module_name grows "ȺȺȺȺȺȺȺȺ module x" ≡ none
unfolding extract_module_name
module_name_panics = refl

module_name_found : extract_module_name as_it_is "fix module auth, now" ≡ some "auth"
unfolding extract_module_name
module_name_found = refl
