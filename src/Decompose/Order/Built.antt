-- ===== src/Decompose/Order/Built.antt =====
-- The edges that are built are those of the graph.
use cloud_agent_platform.Base.{
  ℕ, suc, ◌+◌, ◌≡◌, String, List, [], ◌∷◌, ◌++◌, arith, ◌==◌, string_comparable, if◌then◌else◌,
  length,
}
use cloud_agent_platform.Base.Maps.{pos, up, update}
use cloud_agent_platform.Decompose.Counting.{count, count-append, edges, unmet, missing-nil}
use cloud_agent_platform.Decompose.Order.{Edges, DependencyGraph, add_edges, build_edges}

count-add_edges :
    (x u id : String) (deps : List String) (e : Edges)
    → count x ((add_edges id deps e).adj_list u)
      ≡ count x (e.adj_list u) + (if id == x then count u deps else 0)
unfolding add_edges count
count-add_edges x u id [] e = ground arith
count-add_edges x u id (dep ∷ deps) e = ground (
  arith,
  count-add_edges x u id deps record {
    adj_list = update e.adj_list dep (e.adj_list dep ++ id ∷ []);
    in_degree = update e.in_degree id (up (e.in_degree id));
  },
  count-append x (e.adj_list dep) (id ∷ []),
  string_comparable.same_iff dep u,
  string_comparable.same_iff id x,
)

pub count-build_edges :
    (x u : String) (g : DependencyGraph) (e : Edges)
    → count x ((build_edges g e).adj_list u) ≡ count x (e.adj_list u) + edges g x u
unfolding build_edges edges
count-build_edges x u [] e = omega arith
count-build_edges x u ((id, deps) ∷ g) e =
    omega (arith, count-build_edges x u g (add_edges id deps e), count-add_edges x u id deps e)

in_degree-add_edges :
    (x id : String) (deps : List String) (e : Edges) (k : ℕ)
    → e.in_degree x ≡ pos k
    → (add_edges id deps e).in_degree x ≡ pos (k + (if id == x then length deps else 0))
unfolding add_edges
in_degree-add_edges x id [] e k h = ground arith
in_degree-add_edges x id (dep ∷ deps) e k h =
    let e' : Edges = record {
      adj_list = update e.adj_list dep (e.adj_list dep ++ id ∷ []);
      in_degree = update e.in_degree id (up (e.in_degree id));
    } in
    ground (
      arith,
      in_degree-add_edges x id deps e' k,
      in_degree-add_edges x id deps e' (suc k),
      string_comparable.same_iff id x,
    )

pub in_degree-build_edges :
    (x : String) (g : DependencyGraph) (e : Edges) (k : ℕ)
    → e.in_degree x ≡ pos k
    → (build_edges g e).in_degree x ≡ pos (k + unmet g x [])
unfolding build_edges unmet
in_degree-build_edges x [] e k h = ground arith
in_degree-build_edges x ((id, deps) ∷ g) e k h = ground (
  arith,
  in_degree-build_edges x g (add_edges id deps e) (k + (if id == x then length deps else 0))
      (in_degree-add_edges x id deps e k h),
  missing-nil deps,
)
