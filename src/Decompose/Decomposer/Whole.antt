-- ===== src/Decompose/Decomposer/Whole.antt =====
-- What `DecomposeTask` returns.
use cloud_agent_platform.Base.{
  ℕ, zero, suc, ◌<◌, ◌≤◌, ◌≡◌, ◌∙◌, ap, refl, sym, inl, inr, ◌⊎◌, String, true, false, ◌&&◌, none,
  some, List, [], ◌∷◌, arith, string_comparable, contains, IsDistinct, length, take, List-cases,
  Bool-cases, Option-cases,
}
use cloud_agent_platform.Base.Int64.{slt, slt_small, IsNonneg}
use cloud_agent_platform.Lifecycle.Entity.{Task, Subtask, new_subtask}
use cloud_agent_platform.Decompose.Order.Complete.{IsExecutionOrder}
use cloud_agent_platform.Decompose.Dependencies.{analyze_dependencies, subtask_ids}
use cloud_agent_platform.Decompose.Dependencies.Layers.{IsExecutionOrder-analyze_dependencies}
use cloud_agent_platform.Decompose.Priorities.Inverted.{assign_priorities_lem, dependents}
use cloud_agent_platform.Decompose.Goal.{
  DecompositionStrategy, by_file, by_module, by_feature, auto, other_strategy, TaskComponent,
  parse_task_goal,
}
use cloud_agent_platform.Decompose.Decomposer.{
  DecomposeOptions, DecompositionResult, panicked, decomposed, ModuleMap, module_components,
  file_based_subtasks, feature_based_subtasks, group_by_module, subtasks_of_modules,
  assign_templates, module_based_subtasks, subtasks_by, generate_subtasks, limit_subtasks, analyzed,
  chosen_strategy, generated_subtasks, decompose_task, sorted_keys,
}

module _ (ulid : ℕ → String) where
  -- `k` identifiers from the number `n` on.
  fresh_ids : ℕ → ℕ → List String
  fresh_ids n zero = []
  fresh_ids n (suc k) = ulid n ∷ fresh_ids (suc n) k

  ids-file_based_subtasks :
      (task_id : String) (n : ℕ) (comps : List TaskComponent)
      → subtask_ids (file_based_subtasks ulid task_id n comps) ≡ fresh_ids n (length comps)
  unfolding file_based_subtasks new_subtask subtask_ids fresh_ids
  ids-file_based_subtasks task_id n [] = refl
  ids-file_based_subtasks task_id n (comp ∷ comps) =
      ap (λ l. ulid n ∷ l) (ids-file_based_subtasks task_id (suc n) comps)

  ids-feature_based_subtasks :
      (task_id : String) (n : ℕ) (comps : List TaskComponent)
      → subtask_ids (feature_based_subtasks ulid task_id n comps) ≡ fresh_ids n (length comps)
  unfolding feature_based_subtasks new_subtask subtask_ids fresh_ids
  ids-feature_based_subtasks task_id n [] = refl
  ids-feature_based_subtasks task_id n (comp ∷ comps) =
      ap (λ l. ulid n ∷ l) (ids-feature_based_subtasks task_id (suc n) comps)

  ids-subtasks_of_modules :
      (task_id : String) (n : ℕ) (m : ModuleMap) (names : List String)
      → (k : ℕ) × (subtask_ids (subtasks_of_modules ulid task_id n m names) ≡ fresh_ids n k)
  unfolding subtasks_of_modules new_subtask subtask_ids fresh_ids
  ids-subtasks_of_modules task_id n m [] = (0, refl)
  ids-subtasks_of_modules task_id n m (name ∷ names) =
      elim (List-cases (module_components name m)) [
        | inl e ↦
            let (k, q) = ids-subtasks_of_modules task_id n m names in
            (k, rw (e, subtasks_of_modules) q)
        | inr (first, others, e) ↦
            let (k, q) = ids-subtasks_of_modules task_id (suc n) m names in
            (suc k, rw (e, subtasks_of_modules) (ap (λ l. ulid n ∷ l) q))
      ]

  module _ (injective : (i j : ℕ) → ulid i ≡ ulid j → i ≡ j) where
    older : (i n k : ℕ) → i < n → contains (ulid i) (fresh_ids n k) ≡ false
    unfolding fresh_ids contains
    older i n zero h = refl
    older i n (suc k) h =
        ground
          (arith, older i (suc n) k, string_comparable.same_iff (ulid n) (ulid i), injective n i)

    fresh_ids-IsDistinct : (n k : ℕ) → IsDistinct (fresh_ids n k)
    unfolding fresh_ids
    fresh_ids-IsDistinct n zero = tt
    fresh_ids-IsDistinct n (suc k) =
        (older n (suc n) k (omega arith), fresh_ids-IsDistinct (suc n) k)

    IsDistinct-of_fresh : (ids : List String) (n k : ℕ) → ids ≡ fresh_ids n k → IsDistinct ids
    IsDistinct-of_fresh ids n k e = rw e (fresh_ids-IsDistinct n k)

ids-assign_templates : (sts : List Subtask) → subtask_ids (assign_templates sts) ≡ subtask_ids sts
unfolding assign_templates subtask_ids
ids-assign_templates [] = refl
ids-assign_templates (st ∷ sts) = ground (arith, ids-assign_templates sts)

contains-take :
    (x : String) (n : ℕ) (sts : List Subtask)
    → contains x (subtask_ids sts) ≡ false
    → contains x (subtask_ids (take n sts)) ≡ false
unfolding subtask_ids contains
contains-take x zero sts h = refl
contains-take x (suc n) [] h = refl
contains-take x (suc n) (st ∷ sts) h = ground (arith, contains-take x n sts)

take-IsDistinct :
    (n : ℕ) (sts : List Subtask)
    → IsDistinct (subtask_ids sts)
    → IsDistinct (subtask_ids (take n sts))
unfolding subtask_ids
take-IsDistinct zero sts d = tt
take-IsDistinct (suc n) [] d = tt
take-IsDistinct (suc n) (st ∷ sts) (fresh, d) =
    (contains-take st.id n sts fresh, take-IsDistinct n sts d)

length-take : (n : ℕ) (sts : List Subtask) → length (take n sts) ≤ n
length-take zero sts = omega arith
length-take (suc n) [] = omega arith
length-take (suc n) (st ∷ sts) = omega (arith, length-take n sts)

module _ (to_lower : String → String) (ulid : ℕ → String)
    (injective : (i j : ℕ) → ulid i ≡ ulid j → i ≡ j) where
  module_based_subtasks-fresh :
      (task_id : String) (comps : List TaskComponent) (sts : List Subtask)
      → module_based_subtasks to_lower ulid task_id comps ≡ some sts
      → (k : ℕ) × (subtask_ids sts ≡ fresh_ids ulid 0 k)
  unfolding module_based_subtasks
  module_based_subtasks-fresh task_id comps sts h =
      elim (Option-cases (group_by_module to_lower comps [])) [
        | inl e ↦ absurd (ground arith)
        | inr (m, e) ↦
            let (k, q) = ids-subtasks_of_modules ulid task_id 0 m (sorted_keys m) in
            (k, ground (arith, q))
      ]

  -- The subtasks of every strategy have the identifiers of the first calls of `NewULID`.
  subtasks_by-fresh :
      (strategy : DecompositionStrategy) (task_id : String) (comps : List TaskComponent)
      (sts : List Subtask)
      → subtasks_by to_lower ulid strategy task_id comps ≡ some sts
      → (k : ℕ) × (subtask_ids sts ≡ fresh_ids ulid 0 k)
  unfolding subtasks_by
  subtasks_by-fresh by_file task_id comps sts h =
      (length comps, ground (arith, ids-file_based_subtasks ulid task_id 0 comps))
  subtasks_by-fresh by_module task_id comps sts h = module_based_subtasks-fresh task_id comps sts h
  subtasks_by-fresh by_feature task_id comps sts h =
      (length comps, ground (arith, ids-feature_based_subtasks ulid task_id 0 comps))
  subtasks_by-fresh auto task_id comps sts h =
      (length comps, ground (arith, ids-feature_based_subtasks ulid task_id 0 comps))
  subtasks_by-fresh (other_strategy s) task_id comps sts h =
      (length comps, ground (arith, ids-feature_based_subtasks ulid task_id 0 comps))

  generate_subtasks-IsDistinct :
      (task : Task) (comps : List TaskComponent) (strategy : DecompositionStrategy)
      (sts : List Subtask)
      → generate_subtasks to_lower ulid task comps strategy ≡ some sts
      → IsDistinct (subtask_ids sts)
  unfolding generate_subtasks
  generate_subtasks-IsDistinct task comps strategy sts h =
      elim (Option-cases (subtasks_by to_lower ulid strategy task.id comps)) [
        | inl e ↦ absurd (ground arith)
        | inr (made, e) ↦
            let (k, q) = subtasks_by-fresh strategy task.id comps made e in
            let same : assign_templates made ≡ sts = ground arith in
            IsDistinct-of_fresh ulid injective (subtask_ids sts) 0 k
              (ap subtask_ids (sym same) ∙ ids-assign_templates made ∙ q)
      ]

limit_subtasks-IsDistinct :
    (opts : DecomposeOptions) (sts : List Subtask)
    → IsDistinct (subtask_ids sts)
    → IsDistinct (subtask_ids (limit_subtasks opts sts))
unfolding limit_subtasks
limit_subtasks-IsDistinct opts sts d =
    elim (Bool-cases (slt 0 opts.max_subtasks && slt opts.max_subtasks (length sts))) [
      | inl e ↦ rw e (take-IsDistinct opts.max_subtasks sts d)
      | inr e ↦ rw e d
    ]

limit_subtasks-length :
    (opts : DecomposeOptions) (sts : List Subtask)
    → 0 < opts.max_subtasks
    → IsNonneg opts.max_subtasks
    → IsNonneg (length sts)
    → length (limit_subtasks opts sts) ≤ opts.max_subtasks
unfolding limit_subtasks
limit_subtasks-length opts sts some_limit small few = ground (
  arith,
  length-take opts.max_subtasks sts,
  slt_small 0 opts.max_subtasks (omega arith) small,
  slt_small opts.max_subtasks (length sts) small few,
)

-- What is promised of a result for the subtasks that are kept.
pub record IsPlan (sts : List Subtask) (r : DecompositionResult) : Type 0 where
  pub same_subtasks : r.subtasks ≡ sts
  pub ordered : IsExecutionOrder (subtask_ids sts) r.dependency_graph r.execution_order
  pub prioritised :
      (x : String)
      → contains x (subtask_ids sts) ≡ true
      → (p : ℕ) × (r.priority_map x ≡ some p)
        × ((dependents r.dependency_graph x ≡ 0 → p ≡ 9)
            × (0 < dependents r.dependency_graph x → (1 ≤ p) × (p ≤ 4)))

analyzed_lem :
    (strategy : DecompositionStrategy) (sts : List Subtask)
    → IsDistinct (subtask_ids sts)
    → (r : DecompositionResult) × (analyzed strategy sts ≡ decomposed r) × IsPlan sts r
unfolding analyzed
analyzed_lem strategy sts d =
    let g = analyze_dependencies sts in
    let (priorities, p, given) = assign_priorities_lem (subtask_ids sts) g in
    let (order, o, ordered) = IsExecutionOrder-analyze_dependencies sts d in
    (
      record {
        subtasks = sts;
        strategy = strategy;
        execution_order = order;
        priority_map = priorities;
        dependency_graph = g;
      },
      rw (p, o, analyzed) refl,
      record { same_subtasks = refl; ordered = ordered; prioritised = given },
    )

module _ (to_lower : String → String) (ulid : ℕ → String) where
  -- No other strategy than that by modules panics.
  generate_subtasks-none :
      (task : Task) (comps : List TaskComponent) (strategy : DecompositionStrategy)
      → generate_subtasks to_lower ulid task comps strategy ≡ none
      → strategy ≡ by_module
  unfolding generate_subtasks subtasks_by
  generate_subtasks-none task comps by_file h = absurd (cc)
  generate_subtasks-none task comps by_module h = refl
  generate_subtasks-none task comps by_feature h = absurd (cc)
  generate_subtasks-none task comps auto h = absurd (cc)
  generate_subtasks-none task comps (other_strategy s) h = absurd (cc)

  module _ (injective : (i j : ℕ) → ulid i ≡ ulid j → i ≡ j) (task : Task)
      (opts : DecomposeOptions) where
    -- `DecomposeTask` of a task returns a plan for the subtasks that were generated and that the
    -- limit leaves, or panics, and that only under the strategy by modules: the execution order has
    -- each subtask once and behind its dependencies, and each has a priority, 9 if no subtask depends
    -- on it and else 1 to 4. The identifiers that `NewULID` gives differ.
    pub decompose_task_lem :
        ((chosen_strategy to_lower task opts ≡ by_module)
          × (decompose_task to_lower ulid (some task) opts ≡ panicked))
        ⊎ ((sts : List Subtask) × (r : DecompositionResult) × (generated_subtasks to_lower ulid task
                opts
              ≡ some sts)
            × (decompose_task to_lower ulid (some task) opts ≡ decomposed r)
            × IsPlan (limit_subtasks opts sts) r)
    unfolding decompose_task
    decompose_task_lem = elim (Option-cases (generated_subtasks to_lower ulid task opts)) [
      | inl e ↦ inl (
        generate_subtasks-none task (parse_task_goal to_lower task.goal)
            (chosen_strategy to_lower task opts) e,
        rw (e, decompose_task) refl,
      )
      | inr (sts, e) ↦
          let distinct =
            generate_subtasks-IsDistinct to_lower ulid injective task
              (parse_task_goal to_lower task.goal) (chosen_strategy to_lower task opts) sts e in
          let (r, q, plan) =
            analyzed_lem (chosen_strategy to_lower task opts) (limit_subtasks opts sts)
              (limit_subtasks-IsDistinct opts sts distinct) in
          inr (sts, r, e, rw (e, decompose_task) q, plan)
    ]
