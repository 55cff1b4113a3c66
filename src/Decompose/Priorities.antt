-- ===== src/Decompose/Priorities.antt =====
-- `assignPriorities`: a walk along the dependents of a subtask.
-- `visited` and `priorityMap` are functions; `fuel` bounds the depth of the recursion, and `none`
-- means that it ran out. Every call that goes deeper has marked one more subtask.
pub mod Walk
pub mod Inverted
use cloud_agent_platform.Base.{
  ℕ, zero, suc, ◌+◌, ◌-◌, String, Bool, true, false, Option, none, some, List, [], ◌∷◌, ◌==◌, ltb,
  length, string_comparable, if◌then◌else◌,
}
use cloud_agent_platform.Base.Maps.{update, ℤ, pos, up, is_zero}
use cloud_agent_platform.Decompose.Order.{DependencyGraph}
use cloud_agent_platform.Decompose.Dependencies.{get_deps}

pub record Marks : Type 0 where
  pub visited : String → Bool
  pub priority_map : String → Option ℕ

abbrev pub no_marks : Marks
no_marks = record { visited = λ id. false; priority_map = λ id. none }

-- `9 - level`, and 1 below that.
unfoldable pub priority_of : ℕ → ℕ
priority_of level = if ltb (9 - level) 1 then 1 else 9 - level

unfoldable pub mark : String → ℕ → Marks → Marks
unfolding priority_of
mark id level s = record {
  visited = update s.visited id true;
  priority_map = update s.priority_map id (some (priority_of level));
}

-- The loop over the dependencies of one subtask, `st`; `go` is the recursive call.
unfoldable pub walk_deps :
    (String → Marks → Option Marks) → (id st : String) → List String → Marks → Option Marks
walk_deps go id st [] s = some s
walk_deps go id st (dep ∷ deps) s = elim (if dep == id then go st s else some s) [
  | none ↦ none
  | some s' ↦ walk_deps go id st deps s'
]

unfoldable pub walk_dependents :
    (String → Marks → Option Marks) → String → DependencyGraph → List String → Marks → Option Marks
unfolding walk_deps get_deps
walk_dependents go id g [] s = some s
walk_dependents go id g (st ∷ sts) s = elim (walk_deps go id st (get_deps st g) s) [
  | none ↦ none
  | some s' ↦ walk_dependents go id g sts s'
]

unfoldable pub assign_level : ℕ → List String → DependencyGraph → String → ℕ → Marks → Option Marks
unfolding mark walk_dependents
assign_level zero ids g id level s = none
assign_level (suc fuel) ids g id level s = elim (s.visited id) [
  | true ↦ some s
  | false ↦
      walk_dependents (λ st s'. assign_level fuel ids g st (level + 1) s') id g ids
        (mark id level s)
]

-- `inDegree[dep]++`
unfoldable pub count_edges : List String → (String → ℤ) → String → ℤ
count_edges [] deg = deg
count_edges (dep ∷ deps) deg = count_edges deps (update deg dep (up (deg dep)))

unfoldable pub count_all_edges : DependencyGraph → (String → ℤ) → String → ℤ
unfolding count_edges
count_all_edges [] deg = deg
count_all_edges ((id, deps) ∷ g) deg = count_all_edges g (count_edges deps deg)

-- The two loops over the subtasks.
unfoldable pub assign_roots :
    (String → ℤ) → List String → DependencyGraph → List String → Marks → Option Marks
unfolding assign_level
assign_roots deg ids g [] s = some s
assign_roots deg ids g (id ∷ left) s =
    elim (if is_zero (deg id) then assign_level (suc (length ids)) ids g id 0 s else some s) [
      | none ↦ none
      | some s' ↦ assign_roots deg ids g left s'
    ]

unfoldable pub assign_rest : List String → DependencyGraph → List String → Marks → Option Marks
unfolding assign_level
assign_rest ids g [] s = some s
assign_rest ids g (id ∷ left) s =
    elim (if s.visited id then some s else assign_level (suc (length ids)) ids g id 5 s) [
      | none ↦ none
      | some s' ↦ assign_rest ids g left s'
    ]

unfoldable pub assign_priorities : List String → DependencyGraph → Option (String → Option ℕ)
unfolding count_all_edges assign_roots assign_rest
assign_priorities ids g = elim (assign_roots (count_all_edges g (λ id. pos 0)) ids g ids no_marks) [
  | none ↦ none
  | some s ↦ elim (assign_rest ids g ids s) [ none ↦ none | some s' ↦ some s'.priority_map ]
]
