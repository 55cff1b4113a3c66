-- ===== src/Decompose/Order/Invariant.antt =====
-- What holds of the queue, the counters and the result whenever the loop is entered.
use cloud_agent_platform.Base.{
  ◌+◌, ◌<◌, ◌≡◌, ◌∙◌, ap, inl, inr, String, true, false, ◌||◌, List, [], ◌∷◌, ◌++◌, arith, ◌==◌,
  string_comparable, same_self, contains, contains-append, IsDistinct, IsDistinct-snoc, Bool-cases,
  ltb, nat_beq, ◌&&◌,
}
use cloud_agent_platform.Base.Maps.{ℤ, pos}
use cloud_agent_platform.Decompose.Counting.{
  count, edges, unmet, unmet-snoc, earlier, earlier-snoc, earlier-middle,
}
use cloud_agent_platform.Decompose.Order.{DependencyGraph, release, sort_strings}
use cloud_agent_platform.Decompose.Order.Release.{
  Counts, Queued, release_counters, release_queued, release-Queued,
}
use cloud_agent_platform.Decompose.Order.Sorted.{contains-sort_strings, sort_strings-IsDistinct}

-- The neighbours are the edges of the graph, and lead to subtasks.
pub record Neighbours (ids : List String) (g : DependencyGraph) (adj : String → List String)
    : Type 0 where
  pub counted : (x u : String) → count x (adj u) ≡ edges g x u
  pub inside : (x u : String) → 0 < edges g x u → contains x ids ≡ true

pub record Loop (ids : List String) (g : DependencyGraph) (deg : String → ℤ)
    (queue result : List String) : Type 0 where
  pub counted : (x : String) → deg x ≡ pos (unmet g x result)
  pub queue_distinct : IsDistinct queue
  pub result_distinct : IsDistinct result
  pub apart : (x : String) → contains x queue ≡ true → contains x result ≡ false
  pub inside : (x : String) → (contains x queue || contains x result) ≡ true → contains x ids ≡ true
  pub met : (x : String) → (contains x queue || contains x result) ≡ true → unmet g x result ≡ 0
  pub found :
      (x : String)
      → contains x ids ≡ true
      → unmet g x result ≡ 0
      → (contains x queue || contains x result) ≡ true
  pub before : (x : String) → contains x result ≡ true → unmet g x (earlier x result) ≡ 0

module _ (ids : List String) (g : DependencyGraph) (deg : String → ℤ)
    (queue result : List String) where
  pub Loop-sort_strings : Loop ids g deg queue result → Loop ids g deg (sort_strings queue) result
  Loop-sort_strings l = record {
    counted = l.counted;
    queue_distinct = sort_strings-IsDistinct queue l.queue_distinct;
    result_distinct = l.result_distinct;
    apart = λ x h. ground (arith, l.apart x, contains-sort_strings x queue);
    inside = λ x h. ground (arith, l.inside x, contains-sort_strings x queue);
    met = λ x h. ground (arith, l.met x, contains-sort_strings x queue);
    found = λ x h k. ground (arith, l.found x, contains-sort_strings x queue);
    before = l.before;
  }

module _ (ids : List String) (g : DependencyGraph) (adj : String → List String)
    (n : Neighbours ids g adj) (deg : String → ℤ) (u : String) (rest result : List String)
    (l : Loop ids g deg (u ∷ rest) result) where
  fresh : contains u result ≡ false
  unfolding contains
  fresh = l.apart u (ground (arith, same_self u))

  u_met : unmet g u result ≡ 0
  unfolding contains
  u_met = l.met u (ground (arith, same_self u))

  step_unmet : (x : String) → unmet g x (result ++ u ∷ []) + edges g x u ≡ unmet g x result
  step_unmet x = unmet-snoc g x u result fresh

  step-Counts : Counts (adj u) deg (λ x. unmet g x result)
  step-Counts = record {
    counted = l.counted;
    enough = λ x. omega (arith, n.counted x u, step_unmet x);
  }

  step-Queued : Queued (λ x. unmet g x result) rest
  unfolding contains
  step-Queued = record { distinct = l.queue_distinct.1; at_zero = λ x h. ground (arith, l.met x) }

  counters_after :
      (x : String) → (release (adj u) deg rest).0 x ≡ pos (unmet g x (result ++ u ∷ []))
  counters_after x =
      release_counters x (adj u) deg (λ y. unmet g y result) rest step-Counts
      ∙ ap pos (omega (arith, n.counted x u, step_unmet x))

  -- Who is in the queue now?
  queue_after :
      (x : String)
      → contains x (release (adj u) deg rest).1
        ≡ (contains x rest || (ltb 0 (edges g x u) && nat_beq (edges g x u) (unmet g x result)))
  queue_after x =
      rw (← n.counted x u) (release_queued x (adj u) deg (λ y. unmet g y result) rest step-Counts)

  result_after : (x : String) → contains x (result ++ u ∷ []) ≡ (contains x result || u == x)
  unfolding contains
  result_after x = ground (arith, contains-append x result (u ∷ []))

  apart_after :
      (x : String)
      → contains x (release (adj u) deg rest).1 ≡ true
      → contains x (result ++ u ∷ []) ≡ false
  unfolding contains
  apart_after x h = ground (
    arith,
    queue_after x,
    result_after x,
    l.apart x,
    l.met x,
    string_comparable.same_iff u x,
    l.queue_distinct.0,
    step_unmet x,
    u_met,
  )

  inside_after :
      (x : String)
      → (contains x (release (adj u) deg rest).1 || contains x (result ++ u ∷ [])) ≡ true
      → contains x ids ≡ true
  unfolding contains
  inside_after x h = ground (arith, queue_after x, result_after x, l.inside x, n.inside x u)

  met_after :
      (x : String)
      → (contains x (release (adj u) deg rest).1 || contains x (result ++ u ∷ [])) ≡ true
      → unmet g x (result ++ u ∷ []) ≡ 0
  unfolding contains
  met_after x h = ground (arith, queue_after x, result_after x, l.met x, step_unmet x)

  found_after :
      (x : String)
      → contains x ids ≡ true
      → unmet g x (result ++ u ∷ []) ≡ 0
      → (contains x (release (adj u) deg rest).1 || contains x (result ++ u ∷ [])) ≡ true
  unfolding contains
  found_after x h k = ground (arith, queue_after x, result_after x, l.found x, step_unmet x)

  before_after :
      (x : String)
      → contains x (result ++ u ∷ []) ≡ true
      → unmet g x (earlier x (result ++ u ∷ [])) ≡ 0
  before_after x h = elim (Bool-cases (contains x result)) [
    | inl old ↦ rw (earlier-snoc x u result old) (l.before x old)
    | inr new ↦
        let same : u ≡ x = ground (arith, result_after x, string_comparable.same_iff u x) in
        rw (← same) (rw (earlier-middle u result [] fresh) u_met)
  ]

  pub Loop-step :
      Loop ids g (release (adj u) deg rest).0 (release (adj u) deg rest).1 (result ++ u ∷ [])
  Loop-step = record {
    counted = counters_after;
    queue_distinct =
        release-Queued (adj u) deg (λ x. unmet g x result) rest step-Counts step-Queued;
    result_distinct = IsDistinct-snoc result u l.result_distinct fresh;
    apart = apart_after;
    inside = inside_after;
    met = met_after;
    found = found_after;
    before = before_after;
  }
