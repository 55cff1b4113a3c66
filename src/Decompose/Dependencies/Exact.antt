-- ===== src/Decompose/Dependencies/Exact.antt =====
-- Which dependencies a subtask gets.
use mathlib.Core.List.{append_assoc, append-nil}
use cloud_agent_platform.Base.{
  ◌≡◌, ◌∙◌, ap, refl, inl, inr, String, Bool, true, false, ◌||◌, List, [], ◌∷◌, ◌++◌, arith, ◌==◌,
  string_comparable, same_self, if◌then◌else◌, contains, contains-append, IsDistinct, Bool-cases,
}
use cloud_agent_platform.Lifecycle.Entity.{Subtask}
use cloud_agent_platform.Decompose.Order.{DependencyGraph}
use cloud_agent_platform.Decompose.Dependencies.{
  waits_for, get_deps, put_deps, empty_lists, add_earlier, add_dependencies, unique_from,
  unique_strings, remove_duplicates, analyze_dependencies, subtask_ids,
}
use cloud_agent_platform.Decompose.Dependencies.Layers.{subtask_ids-append}

-- The identifiers of the subtasks that are waited for.
unfoldable pub waited_for : Subtask → List Subtask → List String
waited_for st [] = []
waited_for st (prev ∷ prevs) =
    if waits_for st.type prev.type then prev.id ∷ waited_for st prevs else waited_for st prevs

waited_for-snoc :
    (st : Subtask) (xs ys : List Subtask)
    → waited_for st (xs ++ ys) ≡ waited_for st xs ++ waited_for st ys
unfolding waited_for
waited_for-snoc st [] ys = refl
waited_for-snoc st (x ∷ xs) ys = ground (arith, waited_for-snoc st xs ys)

get_deps-put_deps :
    (x id : String) (deps : List String) (g : DependencyGraph)
    → get_deps x (put_deps id deps g) ≡ (if id == x then deps else get_deps x g)
unfolding get_deps put_deps
get_deps-put_deps x id deps [] = refl
get_deps-put_deps x id deps ((k, old) ∷ g) = ground (
  arith,
  get_deps-put_deps x id deps g,
  string_comparable.same_iff k id,
  string_comparable.same_iff k x,
  string_comparable.same_iff id x,
)

get_deps-empty_lists :
    (x : String) (sts : List Subtask) (g : DependencyGraph)
    → get_deps x g ≡ []
    → get_deps x (empty_lists sts g) ≡ []
unfolding empty_lists
get_deps-empty_lists x [] g h = h
get_deps-empty_lists x (st ∷ sts) g h =
    get_deps-empty_lists x sts (put_deps st.id [] g)
      (ground (arith, get_deps-put_deps x st.id [] g))

-- An earlier subtask is added to the dependencies of the subtask at hand.
get_deps-add_one :
    (x id : String) (more : List String) (g : DependencyGraph)
    → get_deps x (put_deps id (get_deps id g ++ more) g)
      ≡ (if id == x then get_deps x g ++ more else get_deps x g)
get_deps-add_one x id more g =
    ground
      (arith, get_deps-put_deps x id (get_deps id g ++ more) g, string_comparable.same_iff id x)

if_append :
    (b : Bool) (xs ys zs : List String)
    → (if b then (if b then xs ++ ys else xs) ++ zs else (if b then xs ++ ys else xs))
      ≡ (if b then xs ++ (ys ++ zs) else xs)
if_append true xs ys zs = append_assoc xs ys zs
if_append false xs ys zs = refl

get_deps-add_earlier :
    (x : String) (st : Subtask) (prevs : List Subtask) (g : DependencyGraph)
    → get_deps x (add_earlier st prevs g)
      ≡ (if st.id == x then get_deps x g ++ waited_for st prevs else get_deps x g)
unfolding add_earlier waited_for
get_deps-add_earlier x st [] g = ground (arith, append-nil (get_deps x g))
get_deps-add_earlier x st (prev ∷ prevs) g = elim (Bool-cases (waits_for st.type prev.type)) [
  | inl e ↦ rw e (
      get_deps-add_earlier x st prevs (put_deps st.id (get_deps st.id g ++ prev.id ∷ []) g)
      ∙ ap (λ l. if st.id == x then l ++ waited_for st prevs else l)
          (get_deps-add_one x st.id (prev.id ∷ []) g)
      ∙ if_append (st.id == x) (get_deps x g) (prev.id ∷ []) (waited_for st prevs))
  | inr e ↦ rw e (get_deps-add_earlier x st prevs g)
]

-- A subtask that the loop has passed, or does not reach, keeps its dependencies.
get_deps-add_dependencies_other :
    (x : String) (passed sts : List Subtask) (g : DependencyGraph)
    → contains x (subtask_ids sts) ≡ false
    → get_deps x (add_dependencies passed sts g) ≡ get_deps x g
unfolding add_dependencies subtask_ids contains
get_deps-add_dependencies_other x passed [] g h = refl
get_deps-add_dependencies_other x passed (st ∷ sts) g h = ground (
  arith,
  get_deps-add_dependencies_other x (passed ++ st ∷ []) sts (add_earlier st passed g),
  get_deps-add_earlier x st passed g,
)

get_deps-add_dependencies :
    (st : Subtask) (passed before after : List Subtask) (g : DependencyGraph)
    → IsDistinct (subtask_ids (before ++ st ∷ after))
    → get_deps st.id (add_dependencies passed (before ++ st ∷ after) g)
      ≡ get_deps st.id g ++ waited_for st (passed ++ before)
unfolding add_dependencies subtask_ids contains
get_deps-add_dependencies st passed [] after g d = ground (
  arith,
  get_deps-add_dependencies_other st.id (passed ++ st ∷ []) after (add_earlier st passed g) d.0,
  get_deps-add_earlier st.id st passed g,
  same_self st.id,
  append-nil passed,
)
get_deps-add_dependencies st passed (b ∷ before) after g (fresh, d) =
    get_deps-add_dependencies st (passed ++ b ∷ []) before after (add_earlier b passed g) d
    ∙ ground (
      arith,
      get_deps-add_earlier st.id b passed g,
      string_comparable.same_iff b.id st.id,
      ap (contains b.id) (subtask_ids-append before (st ∷ after)),
      contains-append b.id (subtask_ids before) (st.id ∷ subtask_ids after),
      append_assoc passed (b ∷ []) before,
    )

contains-unique_from :
    (u : String) (seen ss : List String)
    → (contains u seen || contains u (unique_from seen ss)) ≡ (contains u seen || contains u ss)
unfolding unique_from contains
contains-unique_from u seen [] = refl
contains-unique_from u seen (s ∷ ss) = ground (
  arith,
  contains-unique_from u seen ss,
  contains-unique_from u (s ∷ seen) ss,
  string_comparable.same_iff s u,
)

get_deps-remove_duplicates :
    (x : String) (g : DependencyGraph)
    → get_deps x (remove_duplicates g) ≡ unique_strings (get_deps x g)
unfolding get_deps remove_duplicates unique_strings
get_deps-remove_duplicates x [] = refl
get_deps-remove_duplicates x ((k, deps) ∷ g) = ground (arith, get_deps-remove_duplicates x g)

-- A subtask depends exactly on those earlier subtasks which the rule on the types names, if the
-- subtasks have different identifiers.
pub analyze_dependencies_lem :
    (u : String) (before : List Subtask) (st : Subtask) (after : List Subtask)
    → IsDistinct (subtask_ids (before ++ st ∷ after))
    → contains u (get_deps st.id (analyze_dependencies (before ++ st ∷ after)))
      ≡ contains u (waited_for st before)
unfolding analyze_dependencies unique_strings contains
analyze_dependencies_lem u before st after d =
    let sts = before ++ st ∷ after in
    let g = empty_lists sts [] in
    ap (contains u) (
      get_deps-remove_duplicates st.id (add_dependencies [] sts g)
      ∙ ap unique_strings (
          get_deps-add_dependencies st [] before after g d
          ∙ ap (λ l. l ++ waited_for st before) (get_deps-empty_lists st.id sts [] refl)))
    ∙ contains-unique_from u [] (waited_for st before)
