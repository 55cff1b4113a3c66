-- ===== src/Decompose/Decomposer.antt =====
-- `DecomposeTask` and the generation of the subtasks.
-- `ulid n` is the answer of the call of `domain.NewULID` with the number n.
pub mod Whole
use Prim.Native.Nat.{ℕ, suc, ◌+◌}
use Prim.Native.String.{◌++◌ as str_append, count}
use cloud_agent_platform.Base.{
  String, Bool, true, ◌&&◌, Option, none, some, List, [], ◌∷◌, ◌++◌, ltb, nat_beq, length, take,
  ◌==◌, string_comparable, if◌then◌else◌,
}
use cloud_agent_platform.Base.Int64.{slt}
use cloud_agent_platform.Lifecycle.{SubtaskType, analysis, coding, review, testing, research}
use cloud_agent_platform.Lifecycle.Entity.{Task, Subtask, new_subtask}
use cloud_agent_platform.Decompose.Order.{DependencyGraph, sort_strings, compute_execution_order}
use cloud_agent_platform.Decompose.Dependencies.{analyze_dependencies, subtask_ids}
use cloud_agent_platform.Decompose.Priorities.{assign_priorities}
use cloud_agent_platform.Decompose.Goal.{
  DecompositionStrategy, by_file, by_module, by_feature, auto, other_strategy, TaskComponent,
  determine_strategy, parse_task_goal, extract_module_name,
}

pub record DecomposeOptions : Type 0 where
  pub strategy : DecompositionStrategy
  pub max_subtasks : ℕ  -- int
  pub include_tests : Bool
  pub parallel_threshold : ℕ

abbrev pub default_decompose_options : DecomposeOptions
default_decompose_options = record {
  strategy = auto;
  max_subtasks = 20;
  include_tests = true;
  parallel_threshold = 3;
}

pub record DecompositionResult : Type 0 where
  pub subtasks : List Subtask
  pub strategy : DecompositionStrategy
  pub execution_order : List String
  pub priority_map : String → Option ℕ
  pub dependency_graph : DependencyGraph

-- `panicked` is the panic of a slice, `out_of_fuel` is no behaviour of the code.
pub data Decomposed : Type 0 where
  task_is_nil panicked out_of_fuel : Decomposed
  decomposed : DecompositionResult → Decomposed

-- `generateFileBasedSubtasks`; the next call of `NewULID` has the number `n`.
unfoldable pub file_based_subtasks : (ℕ → String) → String → ℕ → List TaskComponent → List Subtask
unfolding new_subtask
file_based_subtasks ulid task_id n [] = []
file_based_subtasks ulid task_id n (comp ∷ comps) =
    new_subtask (ulid n) task_id comp.type (str_append "Work on file: " comp.description) ""
    ∷ file_based_subtasks ulid task_id (suc n) comps

unfoldable pub feature_based_subtasks :
    (ℕ → String) → String → ℕ → List TaskComponent → List Subtask
unfolding new_subtask
feature_based_subtasks ulid task_id n [] = []
feature_based_subtasks ulid task_id n (comp ∷ comps) =
    new_subtask (ulid n) task_id comp.type comp.description ""
    ∷ feature_based_subtasks ulid task_id (suc n) comps

-- `moduleMap`, as the list of its entries
abbrev pub ModuleMap : Type 0
ModuleMap = List (String × List TaskComponent)

unfoldable pub add_to_module : String → TaskComponent → ModuleMap → ModuleMap
add_to_module name comp [] = (name, comp ∷ []) ∷ []
add_to_module name comp ((k, comps) ∷ m) =
    if k == name then (k, comps ++ comp ∷ []) ∷ m else (k, comps) ∷ add_to_module name comp m

unfoldable pub module_keys : ModuleMap → List String
module_keys [] = []
module_keys ((k, comps) ∷ m) = k ∷ module_keys m

unfoldable pub sorted_keys : ModuleMap → List String
unfolding module_keys sort_strings
sorted_keys m = sort_strings (module_keys m)

unfoldable pub module_components : String → ModuleMap → List TaskComponent
module_components name [] = []
module_components name ((k, comps) ∷ m) = if k == name then comps else module_components name m

module _ (to_lower : String → String) where
  unfoldable pub group_by_module : List TaskComponent → ModuleMap → Option ModuleMap
  unfolding extract_module_name add_to_module
  group_by_module [] m = some m
  group_by_module (comp ∷ comps) m = elim (extract_module_name to_lower comp.description) [
    | none ↦ none
    | some name ↦ group_by_module comps (add_to_module name comp m)
  ]

-- The loop over the names of the modules.
unfoldable pub subtasks_of_modules :
    (ℕ → String) → String → ℕ → ModuleMap → List String → List Subtask
unfolding new_subtask module_components
subtasks_of_modules ulid task_id n m [] = []
subtasks_of_modules ulid task_id n m (name ∷ names) = elim (module_components name m) [
  | [] ↦ subtasks_of_modules ulid task_id n m names
  | first ∷ others ↦
      new_subtask (ulid n) task_id first.type
        (str_append "Work on module " (str_append name (str_append ": " first.description))) ""
      ∷ subtasks_of_modules ulid task_id (suc n) m names
]

unfoldable pub default_agent_template : SubtaskType → String
default_agent_template testing = "tester"
default_agent_template review = "reviewer"
default_agent_template analysis = "analyst"
default_agent_template research = "researcher"
default_agent_template coding = "executor"

unfoldable pub assign_templates : List Subtask → List Subtask
unfolding default_agent_template
assign_templates [] = []
assign_templates (st ∷ sts) =
    (if nat_beq (count st.agent_template) 0
      then record st { agent_template = default_agent_template st.type }
      else st)
    ∷ assign_templates sts

unfoldable pub limit_subtasks : DecomposeOptions → List Subtask → List Subtask
limit_subtasks opts sts =
    if slt 0 opts.max_subtasks && slt opts.max_subtasks (length sts)
    then take opts.max_subtasks sts
    else sts

-- What follows when the subtasks are generated and limited.
unfoldable pub analyzed : DecompositionStrategy → List Subtask → Decomposed
unfolding analyze_dependencies assign_priorities compute_execution_order subtask_ids
analyzed strategy sts =
    let graph = analyze_dependencies sts in
    elim (assign_priorities (subtask_ids sts) graph) [
      | none ↦ out_of_fuel
      | some priority_map ↦ elim (compute_execution_order (subtask_ids sts) graph) [
        | none ↦ out_of_fuel
        | some order ↦ decomposed record {
          subtasks = sts;
          strategy = strategy;
          execution_order = order;
          priority_map = priority_map;
          dependency_graph = graph;
        }
      ]
    ]

-- The first steps of `DecomposeTask`.
abbrev pub chosen_strategy : (String → String) → Task → DecomposeOptions → DecompositionStrategy
chosen_strategy to_lower task opts = determine_strategy to_lower task.goal opts.strategy

module _ (to_lower : String → String) (ulid : ℕ → String) where
  unfoldable pub module_based_subtasks : String → List TaskComponent → Option (List Subtask)
  unfolding group_by_module subtasks_of_modules sorted_keys
  module_based_subtasks task_id comps = elim (group_by_module to_lower comps []) [
    | none ↦ none
    | some m ↦ some (subtasks_of_modules ulid task_id 0 m (sorted_keys m))
  ]

  -- The switch of `generateSubtasks`.
  unfoldable pub subtasks_by :
      DecompositionStrategy → String → List TaskComponent → Option (List Subtask)
  unfolding file_based_subtasks module_based_subtasks feature_based_subtasks
  subtasks_by by_file task_id comps = some (file_based_subtasks ulid task_id 0 comps)
  subtasks_by by_module task_id comps = module_based_subtasks task_id comps
  subtasks_by by_feature task_id comps = some (feature_based_subtasks ulid task_id 0 comps)
  subtasks_by auto task_id comps = some (feature_based_subtasks ulid task_id 0 comps)
  subtasks_by (other_strategy s) task_id comps = some (feature_based_subtasks ulid task_id 0 comps)

  unfoldable pub generate_subtasks :
      Task → List TaskComponent → DecompositionStrategy → Option (List Subtask)
  unfolding subtasks_by assign_templates
  generate_subtasks task comps strategy = elim (subtasks_by strategy task.id comps) [
    | none ↦ none
    | some sts ↦ some (assign_templates sts)
  ]

  abbrev pub generated_subtasks : Task → DecomposeOptions → Option (List Subtask)
  generated_subtasks task opts =
      generate_subtasks task (parse_task_goal to_lower task.goal)
        (chosen_strategy to_lower task opts)

  unfoldable pub decompose_task : Option Task → DecomposeOptions → Decomposed
  unfolding determine_strategy parse_task_goal generate_subtasks limit_subtasks analyzed
  decompose_task none opts = task_is_nil
  decompose_task (some task) opts = elim (generated_subtasks task opts) [
    | none ↦ panicked
    | some sts ↦ analyzed (chosen_strategy to_lower task opts) (limit_subtasks opts sts)
  ]
