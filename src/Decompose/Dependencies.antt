-- ===== src/Decompose/Dependencies.antt =====
-- `analyzeDependencies`: which subtasks wait for which earlier ones.
-- The map from a subtask to its dependencies is a list of entries, one for each key.
pub mod Layers
pub mod Exact
use cloud_agent_platform.Base.{
  String, Bool, true, ◌&&◌, ◌||◌, List, [], ◌∷◌, ◌++◌, ◌==◌, string_comparable, if◌then◌else◌,
  contains,
}
use cloud_agent_platform.Lifecycle.{
  SubtaskType, analysis, coding, review, testing, research, subtask_type_to_string,
}
use cloud_agent_platform.Lifecycle.Entity.{Subtask}
use cloud_agent_platform.Decompose.Order.{DependencyGraph}

unfoldable pub is_type : SubtaskType → SubtaskType → Bool
unfolding subtask_type_to_string
is_type a b = subtask_type_to_string a == subtask_type_to_string b

-- Does a subtask of the first type wait for an earlier one of the second?
unfoldable pub waits_for : SubtaskType → SubtaskType → Bool
unfolding is_type
waits_for st prev =
    if (is_type st coding || is_type st testing) && (is_type prev research || is_type prev analysis)
    then true
    else if is_type st review && is_type prev coding
    then true
    else is_type st testing && is_type prev coding

-- `graph[id]`
unfoldable pub get_deps : String → DependencyGraph → List String
get_deps id [] = []
get_deps id ((k, deps) ∷ g) = if k == id then deps else get_deps id g

-- `graph[id] = deps`
unfoldable pub put_deps : String → List String → DependencyGraph → DependencyGraph
put_deps id deps [] = (id, deps) ∷ []
put_deps id deps ((k, old) ∷ g) = if k == id then (k, deps) ∷ g else (k, old) ∷ put_deps id deps g

unfoldable pub empty_lists : List Subtask → DependencyGraph → DependencyGraph
unfolding put_deps
empty_lists [] g = g
empty_lists (st ∷ sts) g = empty_lists sts (put_deps st.id [] g)

-- The loop over the earlier subtasks.
unfoldable pub add_earlier : Subtask → List Subtask → DependencyGraph → DependencyGraph
unfolding waits_for get_deps put_deps
add_earlier st [] g = g
add_earlier st (prev ∷ prevs) g =
    add_earlier st prevs (
      if waits_for st.type prev.type
      then put_deps st.id (get_deps st.id g ++ prev.id ∷ []) g
      else g)

-- The loop over the subtasks, with those that it has passed.
unfoldable pub add_dependencies : (passed left : List Subtask) → DependencyGraph → DependencyGraph
unfolding add_earlier
add_dependencies passed [] g = g
add_dependencies passed (st ∷ sts) g =
    add_dependencies (passed ++ st ∷ []) sts (add_earlier st passed g)

unfoldable pub unique_from : List String → List String → List String
unique_from seen [] = []
unique_from seen (s ∷ ss) =
    let kept = s ∷ unique_from (s ∷ seen) ss in
    let dropped = unique_from seen ss in if contains s seen then dropped else kept

unfoldable pub unique_strings : List String → List String
unfolding unique_from contains
unique_strings ss = unique_from [] ss

unfoldable pub remove_duplicates : DependencyGraph → DependencyGraph
unfolding unique_strings
remove_duplicates [] = []
remove_duplicates ((id, deps) ∷ g) = (id, unique_strings deps) ∷ remove_duplicates g

unfoldable pub analyze_dependencies : List Subtask → DependencyGraph
unfolding empty_lists add_dependencies remove_duplicates
analyze_dependencies sts = remove_duplicates (add_dependencies [] sts (empty_lists sts []))

unfoldable pub subtask_ids : List Subtask → List String
subtask_ids [] = []
subtask_ids (st ∷ sts) = st.id ∷ subtask_ids sts
