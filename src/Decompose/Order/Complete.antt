-- ===== src/Decompose/Order/Complete.antt =====
-- The loop ends with every subtask in an order in which dependencies come first.
use mathlib.Core.Path.{subst}
use mathlib.Core.List.{append_assoc}
use cloud_agent_platform.Base.{
  ℕ, zero, suc, ◌+◌, ◌<◌, ◌≡◌, ◌∙◌, ap, refl, sym, inl, inr, String, true, false, some, List, [],
  ◌∷◌, ◌++◌, arith, string_comparable, same_self, length, length-append, List-cases, contains,
  contains-append, IsDistinct, nat_beq, ◌&&◌,
}
use cloud_agent_platform.Base.Maps.{ℤ, pos, is_zero}
use cloud_agent_platform.Decompose.Counting.{
  count, edges, unmet, unmet_mono, earlier, earlier-middle, length-le_of_contains,
}
use cloud_agent_platform.Decompose.Order.{
  DependencyGraph, Edges, build_edges, no_edges, roots, run_queue, sort_strings, release,
  or_simple_order, compute_execution_order,
}
use cloud_agent_platform.Decompose.Order.Built.{count-build_edges, in_degree-build_edges}
use cloud_agent_platform.Decompose.Order.Invariant.{Neighbours, Loop, Loop-sort_strings, Loop-step}

-- A graph whose edges lead to subtasks, and which has its subtasks in an order in which every
-- subtask stands behind its dependencies.
pub record IsLayered (ids : List String) (g : DependencyGraph) : Type 0 where
  pub distinct : IsDistinct ids
  pub inside : (x u : String) → 0 < edges g x u → contains x ids ≡ true
  pub layered : (x : String) → contains x ids ≡ true → unmet g x (earlier x ids) ≡ 0

-- A graph whose edges lead to subtasks, and for which there is some order of the subtasks, whatever
-- that of the list is, in which every subtask stands behind its dependencies.
pub record IsOrderable (ids : List String) (g : DependencyGraph) : Type 0 where
  pub distinct : IsDistinct ids
  pub inside : (x u : String) → 0 < edges g x u → contains x ids ≡ true
  pub layers : List String
  pub layers_distinct : IsDistinct layers
  pub same : (x : String) → contains x layers ≡ contains x ids
  pub layered : (x : String) → contains x ids ≡ true → unmet g x (earlier x layers) ≡ 0

pub IsOrderable-IsLayered :
    (ids : List String) (g : DependencyGraph) → IsLayered ids g → IsOrderable ids g
IsOrderable-IsLayered ids g lay = record {
  distinct = lay.distinct;
  inside = lay.inside;
  layers = ids;
  layers_distinct = lay.distinct;
  same = λ x. refl;
  layered = lay.layered;
}

-- The order has every subtask once, and nothing else; no dependency of a subtask is missing among
-- those that stand before it.
pub record IsExecutionOrder (ids : List String) (g : DependencyGraph) (order : List String)
    : Type 0 where
  pub distinct : IsDistinct order
  pub same : (x : String) → contains x order ≡ contains x ids
  pub before : (x : String) → contains x ids ≡ true → unmet g x (earlier x order) ≡ 0

pub IsDistinct-middle :
    (x : String) (xs ys : List String) → IsDistinct (xs ++ x ∷ ys) → contains x xs ≡ false
unfolding contains
IsDistinct-middle x [] ys d = refl
IsDistinct-middle x (y ∷ xs) ys (h, d) = ground (
  arith,
  IsDistinct-middle x xs ys d,
  contains-append y xs (x ∷ ys),
  string_comparable.same_iff y x,
  string_comparable.same_iff x y,
)

module _ (ids : List String) (g : DependencyGraph) (lay : IsOrderable ids g) (result : List String)
    (found : (x : String)
      → contains x ids ≡ true
      → unmet g x result ≡ 0
      → contains x result ≡ true) where
  -- If all that stand in front are in the result, so are the rest.
  all_found :
      (seen rest : List String)
      → seen ++ rest ≡ lay.layers
      → ((y : String) → contains y seen ≡ true → contains y result ≡ true)
      → (y : String) → contains y ids ≡ true
      → contains y result ≡ true
  unfolding contains
  all_found seen [] e h y k =
      ground (arith, ap (contains y) e, contains-append y seen [], h y, lay.same y)
  all_found seen (x ∷ rest) e h y k =
      let apart : contains x seen ≡ false =
        IsDistinct-middle x seen rest (subst (λ l. IsDistinct l) (sym e) lay.layers_distinct) in
      let here : contains x ids ≡ true =
        ground
          (arith, ap (contains x) e, contains-append x seen (x ∷ rest), same_self x, lay.same x) in
      let first : earlier x lay.layers ≡ seen =
        ap (earlier x) (sym e) ∙ earlier-middle x seen rest apart in
      let ready : unmet g x seen ≡ 0 = ap (unmet g x) (sym first) ∙ lay.layered x here in
      let now : contains x result ≡ true =
        found x here (omega (arith, ready, unmet_mono g x seen result h)) in
      all_found (seen ++ x ∷ []) rest (append_assoc seen (x ∷ []) rest ∙ e)
        (λ z m.
          ground (arith, contains-append z seen (x ∷ []), h z, now, string_comparable.same_iff x z))
        y k

module _ (fuel : ℕ) (adj : String → List String) (deg : String → ℤ)
    (queue result : List String) where
  run_queue-empty :
      sort_strings queue ≡ [] → run_queue (suc fuel) adj deg queue result ≡ some result
  unfolding run_queue
  run_queue-empty e = rw (e, run_queue) refl

  run_queue-next :
      (u : String) (rest : List String)
      → sort_strings queue ≡ u ∷ rest
      → run_queue (suc fuel) adj deg queue result
        ≡ run_queue fuel adj
            (release (adj u) deg rest).0
            (release (adj u) deg rest).1
            (result ++ u ∷ [])
  unfolding run_queue
  run_queue-next u rest e = rw (e, run_queue) refl

module _ (ids : List String) (g : DependencyGraph) (adj : String → List String)
    (n : Neighbours ids g adj) where
  -- The loop ends, since no node is queued twice.
  run_queue-ends :
      (fuel : ℕ) (deg : String → ℤ) (queue result : List String)
      → Loop ids g deg queue result
      → length result + fuel ≡ suc (length ids)
      → (r : List String) × (run_queue fuel adj deg queue result ≡ some r)
        × ((deg' : String → ℤ) × Loop ids g deg' [] r)
  run_queue-ends zero deg queue result l e = absurd (
      omega (
        arith,
        length-le_of_contains result ids l.result_distinct (λ z h. l.inside z (ground arith)),
      ))
  run_queue-ends (suc fuel) deg queue result l e =
      let l' = Loop-sort_strings ids g deg queue result l in
      elim (List-cases (sort_strings queue)) [
        | inl empty ↦ (
          result,
          run_queue-empty fuel adj deg queue result empty,
          (deg, subst (λ q. Loop ids g deg q result) empty l'),
        )
        | inr (u, rest, some_u) ↦
            let l'' = subst (λ q. Loop ids g deg q result) some_u l' in
            let (r, ends, last) =
              run_queue-ends fuel (release (adj u) deg rest).0 (release (adj u) deg rest).1
                (result ++ u ∷ []) (Loop-step ids g adj n deg u rest result l'')
                (omega (arith, length-append result (u ∷ []))) in
            (r, run_queue-next fuel adj deg queue result u rest some_u ∙ ends, last)
      ]

contains-roots :
    (x : String) (ids : List String) (deg : String → ℤ)
    → contains x (roots ids deg) ≡ (contains x ids && is_zero (deg x))
unfolding contains roots
contains-roots x [] deg = refl
contains-roots x (id ∷ ids) deg =
    ground (arith, contains-roots x ids deg, string_comparable.same_iff id x)

roots-IsDistinct :
    (ids : List String) (deg : String → ℤ) → IsDistinct ids → IsDistinct (roots ids deg)
unfolding roots
roots-IsDistinct [] deg d = tt
roots-IsDistinct (id ∷ ids) deg (fresh, d) =
    ground (arith, contains-roots id ids deg, roots-IsDistinct ids deg d)

is_zero_pos : (m : ℕ) → is_zero (pos m) ≡ nat_beq m 0
is_zero_pos zero = refl
is_zero_pos (suc m) = ground arith

module _ (ids : List String) (g : DependencyGraph) (lay : IsOrderable ids g) where
  abbrev built : Edges
  built = build_edges g no_edges

  start-Neighbours : Neighbours ids g built.adj_list
  unfolding count
  start-Neighbours = record {
    counted = λ x u. omega (arith, count-build_edges x u g no_edges);
    inside = lay.inside;
  }

  start-in_degree : (x : String) → built.in_degree x ≡ pos (unmet g x [])
  start-in_degree x = ground (arith, in_degree-build_edges x g no_edges 0 refl)

  start-queue :
      (x : String)
      → contains x (roots ids built.in_degree) ≡ (contains x ids && nat_beq (unmet g x []) 0)
  start-queue x = ground (
    arith,
    contains-roots x ids built.in_degree,
    ap is_zero (start-in_degree x) ∙ is_zero_pos (unmet g x []),
  )

  start-Loop : Loop ids g built.in_degree (roots ids built.in_degree) []
  unfolding contains
  start-Loop = record {
    counted = start-in_degree;
    queue_distinct = roots-IsDistinct ids built.in_degree lay.distinct;
    result_distinct = tt;
    apart = λ x h. refl;
    inside = λ x h. ground (arith, start-queue x);
    met = λ x h. ground (arith, start-queue x);
    found = λ x h k. ground (arith, start-queue x);
    before = λ x h. cc;
  }

  result-IsExecutionOrder :
      (r : List String) (deg : String → ℤ)
      → Loop ids g deg [] r
      → IsExecutionOrder ids g (or_simple_order ids r)
  unfolding contains or_simple_order
  result-IsExecutionOrder r deg l =
      let all : (y : String) → contains y ids ≡ true → contains y r ≡ true =
        all_found ids g lay r (λ x h k. l.found x h k) [] lay.layers refl (λ y h. cc) in
      let enough = length-le_of_contains ids r lay.distinct all in
      let kept : or_simple_order ids r ≡ r = ground arith in
      rw kept record {
        distinct = l.result_distinct;
        same = λ x. ground (arith, all x, l.inside x);
        before = λ x h. l.before x (all x h);
      }

-- The order of execution of a graph whose edges lead to subtasks, and which can be ordered in some
-- way, whatever the order of the list: the loop ends, and its result has every subtask once and
-- behind all its dependencies.
pub compute_execution_order_lem :
    (ids : List String) (g : DependencyGraph)
    → IsOrderable ids g
    → (order : List String) × (compute_execution_order ids g ≡ some order)
      × IsExecutionOrder ids g order
unfolding compute_execution_order contains
compute_execution_order_lem [] g lay =
    ([], refl, record { distinct = tt; same = λ x. refl; before = λ x h. absurd (cc) })
compute_execution_order_lem (id ∷ ids) g lay =
    let e = build_edges g no_edges in
    let (r, ends, (deg, l)) =
      run_queue-ends (id ∷ ids) g e.adj_list (start-Neighbours (id ∷ ids) g lay)
        (suc (length (id ∷ ids))) e.in_degree (roots (id ∷ ids) e.in_degree) []
        (start-Loop (id ∷ ids) g lay) (omega arith) in
    (
      or_simple_order (id ∷ ids) r,
      rw (ends, compute_execution_order) refl,
      result-IsExecutionOrder (id ∷ ids) g lay r deg l,
    )
