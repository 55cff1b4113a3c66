-- ===== src/Decompose/Dependencies/Layers.antt =====
-- Dependencies lead to earlier subtasks only.
use mathlib.Core.Path.{subst}
use mathlib.Core.List.{append_assoc}
use cloud_agent_platform.Base.{
  ◌+◌, ◌<◌, ◌≤◌, ◌≡◌, ◌∙◌, ap, refl, sym, inl, inr, String, true, false, some, List, [], ◌∷◌, ◌++◌,
  arith, ◌==◌, string_comparable, same_self, if◌then◌else◌, contains, contains-append, IsDistinct,
  Bool-cases,
}
use cloud_agent_platform.Lifecycle.Entity.{Subtask}
use cloud_agent_platform.Decompose.Counting.{count, missing, edges, unmet, earlier, earlier-middle}
use cloud_agent_platform.Decompose.Order.{DependencyGraph, compute_execution_order}
use cloud_agent_platform.Decompose.Order.Complete.{
  IsLayered, IsOrderable-IsLayered, IsExecutionOrder, IsDistinct-middle,
  compute_execution_order_lem,
}
use cloud_agent_platform.Decompose.Dependencies.{
  waits_for, get_deps, put_deps, empty_lists, add_earlier, add_dependencies, unique_from,
  unique_strings, remove_duplicates, analyze_dependencies, subtask_ids,
}

unmet-put_deps :
    (id x : String) (deps done : List String) (g : DependencyGraph)
    → unmet (put_deps id deps g) x done
      ≤ (if id == x then missing done deps else 0) + unmet g x done
unfolding put_deps unmet
unmet-put_deps id x deps done [] = ground arith
unmet-put_deps id x deps done ((k, old) ∷ g) =
    ground (arith, unmet-put_deps id x deps done g, string_comparable.same_iff k id)

edges-put_deps :
    (id x u : String) (deps : List String) (g : DependencyGraph)
    → edges (put_deps id deps g) x u ≤ (if id == x then count u deps else 0) + edges g x u
unfolding put_deps edges
edges-put_deps id x u deps [] = ground arith
edges-put_deps id x u deps ((k, old) ∷ g) =
    ground (arith, edges-put_deps id x u deps g, string_comparable.same_iff k id)

missing-get_deps :
    (id : String) (done : List String) (g : DependencyGraph)
    → missing done (get_deps id g) ≤ unmet g id done
unfolding get_deps unmet missing
missing-get_deps id done [] = omega arith
missing-get_deps id done ((k, deps) ∷ g) = ground (arith, missing-get_deps id done g)

missing-append :
    (done xs ys : List String) → missing done (xs ++ ys) ≡ missing done xs + missing done ys
unfolding missing
missing-append done [] ys = omega arith
missing-append done (x ∷ xs) ys = ground (arith, missing-append done xs ys)

missing-unique_from :
    (done seen xs : List String) → missing done (unique_from seen xs) ≤ missing done xs
unfolding unique_from missing
missing-unique_from done seen [] = omega arith
missing-unique_from done seen (x ∷ xs) =
    ground (arith, missing-unique_from done seen xs, missing-unique_from done (x ∷ seen) xs)

count-unique_from :
    (u : String) (seen xs : List String) → count u (unique_from seen xs) ≤ count u xs
unfolding unique_from count
count-unique_from u seen [] = omega arith
count-unique_from u seen (x ∷ xs) =
    ground (arith, count-unique_from u seen xs, count-unique_from u (x ∷ seen) xs)

unmet-remove_duplicates :
    (g : DependencyGraph) (x : String) (done : List String)
    → unmet (remove_duplicates g) x done ≤ unmet g x done
unfolding remove_duplicates unique_strings unmet
unmet-remove_duplicates [] x done = omega arith
unmet-remove_duplicates ((id, deps) ∷ g) x done =
    ground (arith, unmet-remove_duplicates g x done, missing-unique_from done [] deps)

edges-remove_duplicates :
    (g : DependencyGraph) (x u : String) → edges (remove_duplicates g) x u ≤ edges g x u
unfolding remove_duplicates unique_strings edges
edges-remove_duplicates [] x u = omega arith
edges-remove_duplicates ((id, deps) ∷ g) x u =
    ground (arith, edges-remove_duplicates g x u, count-unique_from u [] deps)

-- The entries are those of subtasks, and depend on earlier ones.
record LooksBack (ids : List String) (g : DependencyGraph) : Type 0 where
  inside : (x u : String) → 0 < edges g x u → contains x ids ≡ true
  back : (x : String) → unmet g x (earlier x ids) ≡ 0

put_deps-LooksBack :
    (ids : List String) (id : String) (deps : List String) (g : DependencyGraph)
    → LooksBack ids g
    → contains id ids ≡ true
    → missing (earlier id ids) deps ≡ 0
    → LooksBack ids (put_deps id deps g)
put_deps-LooksBack ids id deps g b here none_missing = record {
  inside = λ x u h.
      ground (arith, edges-put_deps id x u deps g, b.inside x u, string_comparable.same_iff id x);
  back = λ x. ground (
    arith,
    unmet-put_deps id x deps (earlier x ids) g,
    b.back x,
    string_comparable.same_iff id x,
  );
}

empty_lists-LooksBack :
    (ids : List String) (sts : List Subtask) (g : DependencyGraph)
    → LooksBack ids g
    → ((x : String) → contains x (subtask_ids sts) ≡ true → contains x ids ≡ true)
    → LooksBack ids (empty_lists sts g)
unfolding empty_lists subtask_ids contains missing
empty_lists-LooksBack ids [] g b h = b
empty_lists-LooksBack ids (st ∷ sts) g b h =
    empty_lists-LooksBack ids sts (put_deps st.id [] g)
      (put_deps-LooksBack ids st.id [] g b (h st.id (ground (arith, same_self st.id))) refl)
      (λ x k. h x (ground arith))

add_earlier-LooksBack :
    (ids : List String) (st : Subtask) (prevs : List Subtask) (g : DependencyGraph)
    → LooksBack ids g
    → contains st.id ids ≡ true
    → ((x : String) → contains x (subtask_ids prevs) ≡ true → contains x (earlier st.id ids) ≡ true)
    → LooksBack ids (add_earlier st prevs g)
unfolding add_earlier subtask_ids contains missing
add_earlier-LooksBack ids st [] g b here h = b
add_earlier-LooksBack ids st (prev ∷ prevs) g b here h =
    let found = h prev.id (ground (arith, same_self prev.id)) in
    let more = put_deps-LooksBack ids st.id (get_deps st.id g ++ prev.id ∷ []) g b here (
      ground (
        arith,
        missing-append (earlier st.id ids) (get_deps st.id g) (prev.id ∷ []),
        missing-get_deps st.id (earlier st.id ids) g,
        b.back st.id,
      )) in
    elim (Bool-cases (waits_for st.type prev.type)) [
      | inl e ↦ rw e (
          add_earlier-LooksBack ids st prevs (put_deps st.id (get_deps st.id g ++ prev.id ∷ []) g)
            more here (λ x k. h x (ground arith)))
      | inr e ↦ rw e (add_earlier-LooksBack ids st prevs g b here (λ x k. h x (ground arith)))
    ]

pub subtask_ids-append :
    (xs ys : List Subtask) → subtask_ids (xs ++ ys) ≡ subtask_ids xs ++ subtask_ids ys
unfolding subtask_ids
subtask_ids-append [] ys = refl
subtask_ids-append (x ∷ xs) ys = ap (λ l. x.id ∷ l) (subtask_ids-append xs ys)

add_dependencies-LooksBack :
    (ids : List String) (passed sts : List Subtask) (g : DependencyGraph)
    → IsDistinct ids
    → ids ≡ subtask_ids passed ++ subtask_ids sts
    → LooksBack ids g
    → LooksBack ids (add_dependencies passed sts g)
unfolding add_dependencies subtask_ids contains
add_dependencies-LooksBack ids passed [] g d e b = b
add_dependencies-LooksBack ids passed (st ∷ sts) g d e b =
    let apart : contains st.id (subtask_ids passed) ≡ false =
      IsDistinct-middle st.id (subtask_ids passed) (subtask_ids sts)
        (subst (λ l. IsDistinct l) e d) in
    let first : earlier st.id ids ≡ subtask_ids passed =
      ap (earlier st.id) e ∙ earlier-middle st.id (subtask_ids passed) (subtask_ids sts) apart in
    let here : contains st.id ids ≡ true = ground (
      arith,
      ap (contains st.id) e,
      contains-append st.id (subtask_ids passed) (st.id ∷ subtask_ids sts),
      same_self st.id,
    ) in
    add_dependencies-LooksBack ids (passed ++ st ∷ []) sts (add_earlier st passed g) d
      (e
        ∙ sym (append_assoc (subtask_ids passed) (st.id ∷ []) (subtask_ids sts))
        ∙ ap (λ l. l ++ subtask_ids sts) (sym (subtask_ids-append passed (st ∷ []))))
      (add_earlier-LooksBack ids st passed g b here (λ x k. ap (contains x) first ∙ k))

-- Subtasks with different identifiers get a graph in which every subtask stands behind its
-- dependencies.
pub analyze_dependencies-IsLayered :
    (sts : List Subtask)
    → IsDistinct (subtask_ids sts)
    → IsLayered (subtask_ids sts) (analyze_dependencies sts)
unfolding analyze_dependencies edges unmet subtask_ids
analyze_dependencies-IsLayered sts d =
    let ids = subtask_ids sts in
    let nothing : LooksBack ids [] = record {
      inside = λ x u h. absurd (omega arith);
      back = λ x. refl;
    } in
    let g = add_dependencies [] sts (empty_lists sts []) in
    let b =
      add_dependencies-LooksBack ids [] sts (empty_lists sts []) d refl
        (empty_lists-LooksBack ids sts [] nothing (λ x h. h)) in
    record {
      distinct = d;
      inside = λ x u h. b.inside x u (omega (arith, edges-remove_duplicates g x u));
      layered = λ x h. omega (arith, b.back x, unmet-remove_duplicates g x (earlier x ids));
    }

-- `DecomposeTask` orders what it has analysed: with different identifiers the loop ends, the order
-- has every subtask once, and every subtask stands behind its dependencies.
pub IsExecutionOrder-analyze_dependencies :
    (sts : List Subtask)
    → IsDistinct (subtask_ids sts)
    → (order : List String) × (compute_execution_order (subtask_ids sts) (analyze_dependencies sts)
        ≡ some order)
      × IsExecutionOrder (subtask_ids sts) (analyze_dependencies sts) order
IsExecutionOrder-analyze_dependencies sts d =
    compute_execution_order_lem (subtask_ids sts) (analyze_dependencies sts) (
      IsOrderable-IsLayered (subtask_ids sts) (analyze_dependencies sts)
        (analyze_dependencies-IsLayered sts d))
