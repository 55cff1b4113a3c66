-- ===== src/Decompose/Priorities/Walk.antt =====
-- A walk ends, keeps what is marked, and gives what it marks a priority no higher than its level's.
use cloud_agent_platform.Base.{
  ℕ, zero, suc, ◌+◌, ◌<◌, ◌≤◌, ◌≡◌, ◌∙◌, refl, inl, inr, String, true, false, Option, some, List,
  [], ◌∷◌, arith, ◌==◌, string_comparable, same_self, if◌then◌else◌, contains, Bool-cases, length,
}
use cloud_agent_platform.Decompose.Order.{DependencyGraph}
use cloud_agent_platform.Decompose.Dependencies.{get_deps}
use cloud_agent_platform.Decompose.Priorities.{
  Marks, mark, priority_of, walk_deps, walk_dependents, assign_level,
}

-- What a walk from a level does.
pub record Spreads (level : ℕ) (s s' : Marks) : Type 0 where
  pub keeps : (x : String) → s.visited x ≡ true → s'.visited x ≡ true
  pub same : (x : String) → s.visited x ≡ true → s'.priority_map x ≡ s.priority_map x
  pub new :
      (x : String)
      → s.visited x ≡ false
      → s'.visited x ≡ true
      → (p : ℕ) × (s'.priority_map x ≡ some p) × (suc zero ≤ p) × (p ≤ priority_of level)

pub Spreads-refl : (level : ℕ) (s : Marks) → Spreads level s s
Spreads-refl level s = record { keeps = λ x h. h; same = λ x h. refl; new = λ x h k. absurd (cc) }

priority_of_bounds :
    (level : ℕ) → (suc zero ≤ priority_of level) × (priority_of (level + 1) ≤ priority_of level)
unfolding priority_of
priority_of_bounds level = ground arith

pub Spreads-trans :
    (level : ℕ) (s t u : Marks) → Spreads level s t → Spreads level t u → Spreads level s u
Spreads-trans level s t u a b = record {
  keeps = λ x h. b.keeps x (a.keeps x h);
  same = λ x h. b.same x (a.keeps x h) ∙ a.same x h;
  new = λ x h k. elim (Bool-cases (t.visited x)) [
    | inl old ↦ let (p, e, low, high) = a.new x h old in (p, b.same x old ∙ e, low, high)
    | inr fresh ↦ b.new x fresh k
  ];
}

Spreads-deeper : (level : ℕ) (s t : Marks) → Spreads (level + 1) s t → Spreads level s t
Spreads-deeper level s t a = record {
  keeps = a.keeps;
  same = a.same;
  new = λ x h k.
      let (p, e, low, high) = a.new x h k in (p, e, low, omega (arith, priority_of_bounds level));
}

mark-Spreads :
    (id : String) (level : ℕ) (s : Marks) → s.visited id ≡ false → Spreads level s (mark id level s)
unfolding mark
mark-Spreads id level s h = record {
  keeps = λ x k. ground (arith, string_comparable.same_iff id x);
  same = λ x k. ground (arith, string_comparable.same_iff id x);
  new = λ x k m.
      let here : (id == x) ≡ true = ground arith in
      (priority_of level, rw here refl, (priority_of_bounds level).0, omega arith);
}

-- The subtasks that are not visited.
unfoldable pub unvisited : List String → Marks → ℕ
unvisited [] s = 0
unvisited (x ∷ xs) s = (if s.visited x then 0 else 1) + unvisited xs s

pub unvisited-le : (xs : List String) (s : Marks) → unvisited xs s ≤ length xs
unfolding unvisited
unvisited-le [] s = omega arith
unvisited-le (x ∷ xs) s = ground (arith, unvisited-le xs s)

unvisited-Spreads :
    (xs : List String) (level : ℕ) (s t : Marks)
    → Spreads level s t
    → unvisited xs t ≤ unvisited xs s
unfolding unvisited
unvisited-Spreads [] level s t a = omega arith
unvisited-Spreads (x ∷ xs) level s t a = ground (arith, unvisited-Spreads xs level s t a, a.keeps x)

visited-mark :
    (x id : String) (level : ℕ) (s : Marks)
    → (mark id level s).visited x ≡ (if id == x then true else s.visited x)
unfolding mark
visited-mark x id level s = refl

unvisited-mark :
    (id : String) (level : ℕ) (xs : List String) (s : Marks)
    → contains id xs ≡ true
    → s.visited id ≡ false
    → unvisited xs (mark id level s) < unvisited xs s
unfolding unvisited contains
unvisited-mark id level [] s h k = absurd (cc)
unvisited-mark id level (x ∷ xs) s h k = ground (
  arith,
  unvisited-Spreads xs level s (mark id level s) (mark-Spreads id level s k),
  unvisited-mark id level xs s,
  visited-mark x id level s,
  string_comparable.same_iff id x,
  string_comparable.same_iff x id,
)

-- A walk ends, and spreads from its level.
abbrev pub Ends : ℕ → Option Marks → Marks → Type 0
Ends level r s = (s' : Marks) × (r ≡ some s') × Spreads level s s'

-- Calls from `level` end while fewer than `fuel` of the subtasks are unvisited.
abbrev GoEnds : ℕ → ℕ → List String → (String → Marks → Option Marks) → String → Type 0
GoEnds level fuel ids go st = (t : Marks) → unvisited ids t < fuel → Ends level (go st t) t

module _ (level fuel : ℕ) (ids : List String) (go : String → Marks → Option Marks)
    (id : String) where
  walk_deps-Ends :
      (st : String) (deps : List String) (s : Marks)
      → GoEnds level fuel ids go st
      → unvisited ids s < fuel
      → Ends level (walk_deps go id st deps s) s
  unfolding walk_deps
  walk_deps-Ends st [] s ends h = (s, refl, Spreads-refl level s)
  walk_deps-Ends st (dep ∷ deps) s ends h = elim (Bool-cases (dep == id)) [
    | inl e ↦
        let (t, went, a) = ends s h in
        let (u, r, b) =
          walk_deps-Ends st deps t ends (omega (arith, unvisited-Spreads ids level s t a)) in
        (u, rw (e, went, walk_deps) r, Spreads-trans level s t u a b)
    | inr e ↦ let (u, r, b) = walk_deps-Ends st deps s ends h in (u, rw (e, walk_deps) r, b)
  ]

  walk_dependents-Ends :
      (g : DependencyGraph) (sts : List String) (s : Marks)
      → ((st : String) → contains st sts ≡ true → GoEnds level fuel ids go st)
      → unvisited ids s < fuel
      → Ends level (walk_dependents go id g sts s) s
  unfolding walk_dependents contains
  walk_dependents-Ends g [] s ends h = (s, refl, Spreads-refl level s)
  walk_dependents-Ends g (st ∷ sts) s ends h =
      let (t, went, a) =
        walk_deps-Ends st (get_deps st g) s (ends st (ground (arith, same_self st))) h in
      let (u, r, b) =
        walk_dependents-Ends g sts t (λ x k. ends x (ground arith))
          (omega (arith, unvisited-Spreads ids level s t a)) in
      (u, rw (went, walk_dependents) r, Spreads-trans level s t u a b)

-- The fuel of a call is enough if fewer subtasks than that are unvisited.
pub assign_level-Ends :
    (fuel : ℕ) (ids : List String) (g : DependencyGraph) (id : String) (level : ℕ) (s : Marks)
    → contains id ids ≡ true
    → unvisited ids s < fuel
    → (s' : Marks) × (assign_level fuel ids g id level s ≡ some s')
      × Spreads level s s'
      × (s'.visited id ≡ true)
unfolding assign_level
assign_level-Ends zero ids g id level s here h = absurd (omega arith)
assign_level-Ends (suc fuel) ids g id level s here h = elim (Bool-cases (s.visited id)) [
  | inl e ↦ (s, rw (e, assign_level) refl, Spreads-refl level s, e)
  | inr e ↦
      let m = mark id level s in
      let a = mark-Spreads id level s e in
      let go = λ (st : String) (t : Marks). assign_level fuel ids g st (level + 1) t in
      let (u, r, b) =
        walk_dependents-Ends (level + 1) fuel ids go id g ids m
          (λ st k t l.
            let (t', q, c, seen) = assign_level-Ends fuel ids g st (level + 1) t k l in (t', q, c))
          (omega (arith, unvisited-mark id level ids s here e)) in
      let marked : m.visited id ≡ true = ground (arith, visited-mark id id level s, same_self id) in
      (
        u,
        rw (e, assign_level) r,
        Spreads-trans level s m u a (Spreads-deeper level m u b),
        b.keeps id marked,
      )
]
