-- ===== src/Decompose/Order.antt =====
-- `computeExecutionOrder`: Kahn's algorithm.
-- A counter of edges is an integer without bound. The map `graph` is a list of its entries, in the
-- order in which Go goes through them; the maps that are only looked up are functions.
pub mod Built
pub mod Release
pub mod Sorted
pub mod Invariant
pub mod Complete
use Prim.Native.Nat.{Ordering}
use Prim.Native.String.{compare}
use cloud_agent_platform.Base.{
  ℕ, zero, suc, ◌+◌, String, Bool, true, false, Option, none, some, List, [], ◌∷◌, ◌++◌, map, ltb,
  length, string_comparable, if◌then◌else◌,
}
use cloud_agent_platform.Base.Maps.{update, ℤ, pos, up, down, is_zero}

abbrev pub DependencyGraph : Type 0
DependencyGraph = List (String × List String)

-- `sort.Strings`
abbrev pub at_most : String → String → Bool
at_most s t = elim (compare s t) [ Ordering.gt ↦ false | _ ↦ true ]

unfoldable pub insert_sorted : String → List String → List String
insert_sorted s [] = s ∷ []
insert_sorted s (t ∷ ts) = if at_most s t then s ∷ t ∷ ts else t ∷ insert_sorted s ts

unfoldable pub sort_strings : List String → List String
unfolding insert_sorted
sort_strings [] = []
sort_strings (s ∷ ss) = insert_sorted s (sort_strings ss)

-- `adjList` and `inDegree`
pub record Edges : Type 0 where
  pub adj_list : String → List String
  pub in_degree : String → ℤ

abbrev pub no_edges : Edges
no_edges = record { adj_list = λ id. []; in_degree = λ id. pos 0 }

unfoldable pub add_edges : String → List String → Edges → Edges
add_edges id [] e = e
add_edges id (dep ∷ deps) e = add_edges id deps record {
  adj_list = update e.adj_list dep (e.adj_list dep ++ id ∷ []);
  in_degree = update e.in_degree id (up (e.in_degree id));
}

unfoldable pub build_edges : DependencyGraph → Edges → Edges
unfolding add_edges
build_edges [] e = e
build_edges ((id, deps) ∷ g) e = build_edges g (add_edges id deps e)

-- The identifiers with no edge into them.
unfoldable pub roots : List String → (String → ℤ) → List String
roots [] deg = []
roots (id ∷ ids) deg = if is_zero (deg id) then id ∷ roots ids deg else roots ids deg

-- The loop over the neighbours of the current node.
unfoldable pub release : List String → (String → ℤ) → List String → (String → ℤ) × List String
release [] deg queue = (deg, queue)
release (n ∷ ns) deg queue =
    release ns (update deg n (down (deg n)))
      (if is_zero (down (deg n)) then queue ++ n ∷ [] else queue)

-- The loop `for len(queue) > 0`; `none` means that the fuel ran out.
unfoldable pub run_queue :
    ℕ → (String → List String) → (String → ℤ) → (queue result : List String) → Option (List String)
unfolding sort_strings release
run_queue zero adj deg queue result = none
run_queue (suc fuel) adj deg queue result = elim (sort_strings queue) [
  | [] ↦ some result
  | current ∷ rest ↦
      let (deg', queue') = release (adj current) deg rest in
      run_queue fuel adj deg' queue' (result ++ current ∷ [])
]

-- What is returned for a result of the loop.
unfoldable pub or_simple_order : List String → List String → List String
or_simple_order ids result = if ltb (length result) (length ids) then ids else result

-- The identifiers of the subtasks and the graph; every node leaves the queue once, so the fuel is
-- the number of subtasks and one.
unfoldable pub compute_execution_order : List String → DependencyGraph → Option (List String)
unfolding build_edges roots run_queue or_simple_order
compute_execution_order [] g = some []
compute_execution_order (id ∷ ids) g =
    let e = build_edges g no_edges in
    elim (run_queue (suc (length (id ∷ ids))) e.adj_list e.in_degree (roots (id ∷ ids) e.in_degree)
      []) [ none ↦ none | some result ↦ some (or_simple_order (id ∷ ids) result) ]
