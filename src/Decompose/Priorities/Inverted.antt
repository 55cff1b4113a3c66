-- ===== src/Decompose/Priorities/Inverted.antt =====
-- Who gets a high priority.
use cloud_agent_platform.Base.{
  ℕ, zero, suc, ◌+◌, ◌<◌, ◌≤◌, ◌≡◌, ◌∙◌, ap, refl, inl, inr, String, Bool, true, false, ◌||◌, ◌&&◌,
  Option, some, List, [], ◌∷◌, arith, ◌==◌, string_comparable, same_self, if◌then◌else◌, nat_beq,
  contains, Bool-cases, length,
}
use cloud_agent_platform.Base.Maps.{ℤ, pos, up, is_zero, update}
use cloud_agent_platform.Decompose.Counting.{count}
use cloud_agent_platform.Decompose.Order.{DependencyGraph}
use cloud_agent_platform.Decompose.Dependencies.{get_deps}
use cloud_agent_platform.Decompose.Priorities.{
  Marks, no_marks, mark, priority_of, walk_deps, walk_dependents, assign_level, count_edges,
  count_all_edges, assign_roots, assign_rest, assign_priorities,
}
use cloud_agent_platform.Decompose.Priorities.Walk.{
  Spreads, Spreads-refl, Spreads-trans, unvisited-le, assign_level-Ends,
}

-- How often the graph names a subtask as a dependency.
unfoldable pub dependents : DependencyGraph → String → ℕ
unfolding count
dependents [] id = 0
dependents ((k, deps) ∷ g) id = count id deps + dependents g id

count_edges_lem :
    (x : String) (deps : List String) (deg : String → ℤ) (k : ℕ)
    → deg x ≡ pos k
    → count_edges deps deg x ≡ pos (k + count x deps)
unfolding count_edges count
count_edges_lem x [] deg k h = ground arith
count_edges_lem x (dep ∷ deps) deg k h = ground (
  arith,
  count_edges_lem x deps (update deg dep (up (deg dep))) k,
  count_edges_lem x deps (update deg dep (up (deg dep))) (suc k),
  string_comparable.same_iff dep x,
)

count_all_edges_lem :
    (x : String) (g : DependencyGraph) (deg : String → ℤ) (k : ℕ)
    → deg x ≡ pos k
    → count_all_edges g deg x ≡ pos (k + dependents g x)
unfolding count_all_edges dependents
count_all_edges_lem x [] deg k h = ground arith
count_all_edges_lem x ((id, deps) ∷ g) deg k h = ground (
  arith,
  count_all_edges_lem x g (count_edges deps deg) (k + count x deps)
      (count_edges_lem x deps deg k h),
)

count_pos : (x : String) (xs : List String) → contains x xs ≡ true → 0 < count x xs
unfolding count contains
count_pos x [] h = absurd (cc)
count_pos x (y ∷ ys) h = ground (arith, count_pos x ys)

dependents_pos :
    (x st : String) (g : DependencyGraph) → contains x (get_deps st g) ≡ true → 0 < dependents g x
unfolding get_deps dependents contains
dependents_pos x st [] h = absurd (cc)
dependents_pos x st ((k, deps) ∷ g) h = ground (arith, dependents_pos x st g, count_pos x deps)

-- A walk along the dependents of a subtask on which none depends does nothing.
walk_deps-none :
    (go : String → Marks → Option Marks) (id st : String) (deps : List String) (s : Marks)
    → contains id deps ≡ false
    → walk_deps go id st deps s ≡ some s
unfolding walk_deps contains
walk_deps-none go id st [] s h = refl
walk_deps-none go id st (dep ∷ deps) s h =
    let other : (dep == id) ≡ false = ground arith in
    rw (other, walk_deps) (walk_deps-none go id st deps s (ground arith))

walk_dependents-none :
    (go : String → Marks → Option Marks) (id : String) (g : DependencyGraph) (sts : List String)
    (s : Marks)
    → ((st : String) → contains id (get_deps st g) ≡ false)
    → walk_dependents go id g sts s ≡ some s
unfolding walk_dependents
walk_dependents-none go id g [] s h = refl
walk_dependents-none go id g (st ∷ sts) s h =
    rw (walk_deps-none go id st (get_deps st g) s (h st), walk_dependents)
      (walk_dependents-none go id g sts s h)

not_named :
    (g : DependencyGraph) (id : String)
    → dependents g id ≡ 0
    → (st : String) → contains id (get_deps st g) ≡ false
not_named g id h st = elim (Bool-cases (contains id (get_deps st g))) [
  | inl e ↦ absurd (omega (arith, dependents_pos id st g e))
  | inr e ↦ e
]

assign_level-root :
    (fuel : ℕ) (ids : List String) (g : DependencyGraph) (id : String) (level : ℕ) (s : Marks)
    → dependents g id ≡ 0
    → assign_level (suc fuel) ids g id level s ≡ some (if s.visited id then s else mark id level s)
unfolding assign_level
assign_level-root fuel ids g id level s h = elim (Bool-cases (s.visited id)) [
  | inl e ↦ rw (e, assign_level) refl
  | inr e ↦
      rw (e, assign_level)
        (walk_dependents-none (λ st s'. assign_level fuel ids g st (level + 1) s') id g ids
          (mark id level s) (not_named g id h))
]

is_root : DependencyGraph → String → Bool
is_root g id = nat_beq (dependents g id) 0

-- The loop over the roots marks those of the list on which nothing depends, with priority 9.
record MarksRoots (g : DependencyGraph) (left : List String) (s s' : Marks) : Type 0 where
  visited_after : (x : String) → s'.visited x ≡ (s.visited x || (contains x left && is_root g x))
  priority_after :
      (x : String)
      → s'.priority_map x ≡ (
          if s.visited x
          then s.priority_map x
          else (if contains x left && is_root g x then some 9 else s.priority_map x))

is_zero_pos : (m : ℕ) → is_zero (pos m) ≡ nat_beq m 0
is_zero_pos zero = refl
is_zero_pos (suc m) = ground arith

assign_roots_lem :
    (deg : String → ℤ) (ids : List String) (g : DependencyGraph) (left : List String) (s : Marks)
    → ((x : String) → deg x ≡ pos (dependents g x))
    → (s' : Marks) × (assign_roots deg ids g left s ≡ some s') × MarksRoots g left s s'
unfolding assign_roots contains
assign_roots_lem deg ids g [] s h =
    (s, refl, record { visited_after = λ x. ground arith; priority_after = λ x. ground arith })
assign_roots_lem deg ids g (id ∷ left) s h =
    let tested : is_zero (deg id) ≡ is_root g id =
      unfold is_root in ap is_zero (h id) ∙ is_zero_pos (dependents g id) in
    elim (Bool-cases (is_root g id)) [
      | inl e ↦
          let none_depend : dependents g id ≡ 0 = unfold is_root in ground arith in
          let t = if s.visited id then s else mark id 0 s in
          let (u, r, m) = assign_roots_lem deg ids g left t h in
          (
            u,
            rw (tested, e, assign_level-root (length ids) ids g id 0 s none_depend, assign_roots) r,
            record {
              visited_after = λ x.
                  unfold mark in
                  ground (arith, m.visited_after x, e, string_comparable.same_iff id x);
              priority_after = λ x.
                  unfold mark priority_of in
                  ground (arith, m.priority_after x, e, string_comparable.same_iff id x);
            },
          )
      | inr e ↦
          let (u, r, m) = assign_roots_lem deg ids g left s h in
          (
            u,
            rw (tested, e, assign_roots) r,
            record {
              visited_after =
                  λ x. ground (arith, m.visited_after x, e, string_comparable.same_iff id x);
              priority_after =
                  λ x. ground (arith, m.priority_after x, e, string_comparable.same_iff id x);
            },
          )
    ]

assign_rest_lem :
    (ids : List String) (g : DependencyGraph) (left : List String) (s : Marks)
    → ((x : String) → contains x left ≡ true → contains x ids ≡ true)
    → (s' : Marks) × (assign_rest ids g left s ≡ some s')
      × Spreads 5 s s'
      × ((x : String) → contains x left ≡ true → s'.visited x ≡ true)
unfolding assign_rest contains
assign_rest_lem ids g [] s h = (s, refl, Spreads-refl 5 s, λ x k. absurd (cc))
assign_rest_lem ids g (id ∷ left) s h = elim (Bool-cases (s.visited id)) [
  | inl e ↦
      let (u, r, b, seen) = assign_rest_lem ids g left s (λ x k. h x (ground arith)) in
      (
        u,
        rw (e, assign_rest) r,
        b,
        λ x k. ground (arith, seen x, b.keeps id e, string_comparable.same_iff id x),
      )
  | inr e ↦
      let (t, went, a, here) =
        assign_level-Ends (suc (length ids)) ids g id 5 s (h id (ground (arith, same_self id)))
          (omega (arith, unvisited-le ids s)) in
      let (u, r, b, seen) = assign_rest_lem ids g left t (λ x k. h x (ground arith)) in
      (
        u,
        rw (e, went, assign_rest) r,
        Spreads-trans 5 s t u a b,
        λ x k. ground (arith, seen x, b.keeps id here, string_comparable.same_iff id x),
      )
]

-- The priorities are given to every subtask. One that no subtask depends on gets 9; one that some
-- subtask depends on gets 1 to 4.
pub assign_priorities_lem :
    (ids : List String) (g : DependencyGraph)
    → (priority_map : String → Option ℕ) × (assign_priorities ids g ≡ some priority_map)
      × ((x : String)
          → contains x ids ≡ true
          → (p : ℕ) × (priority_map x ≡ some p)
            × ((dependents g x ≡ 0 → p ≡ 9) × (0 < dependents g x → (1 ≤ p) × (p ≤ 4))))
unfolding assign_priorities
assign_priorities_lem ids g =
    let (s, first, m) =
      assign_roots_lem (count_all_edges g (λ id. pos 0)) ids g ids no_marks
        (λ x. count_all_edges_lem x g (λ id. pos 0) 0 refl ∙ ap pos (omega arith)) in
    let (t, second, b, seen) = assign_rest_lem ids g ids s (λ x h. h) in
    (
      t.priority_map,
      rw (first, second, assign_priorities) refl,
      λ x h. elim (Bool-cases (is_root g x)) [
        | inl e ↦
            let old : s.visited x ≡ true = ground (arith, m.visited_after x) in
            let nine : s.priority_map x ≡ some 9 = ground (arith, m.priority_after x) in
            (9, b.same x old ∙ nine, (λ k. refl, λ k. absurd (unfold is_root in ground arith)))
        | inr e ↦
            let fresh : s.visited x ≡ false = ground (arith, m.visited_after x) in
            let (p, q, low, high) = b.new x fresh (seen x h) in
            (
              p,
              q,
              (
                λ k. absurd (unfold is_root in ground arith),
                λ k. (low, unfold priority_of in omega arith),
              ),
            )
      ],
    )
