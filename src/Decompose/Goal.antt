-- ===== src/Decompose/Goal.antt =====
-- How the goal of a task is read: `determineStrategy`, `parseTaskGoal`, `classifyComponent`,
-- `extractModuleName`.
-- `to_lower` is `strings.ToLower`, whose tables of Unicode are not modelled.
use Prim.Native.Nat.{ℕ, ◌+◌}
use Prim.Native.Char.{Char, code}
use Prim.Native.String.{◌++◌ as str_append, len, slice, count}
use text.Mathlib.Text.{find?}
use cloud_agent_platform.Base.{
  String, Bool, ◌||◌, Option, none, some, List, [], ◌∷◌, ◌++◌, ltb, nat_beq, if◌then◌else◌,
}
use cloud_agent_platform.Base.Text.{
  contains_text, trim_prefix, split, trim_space, take_until, first_field, decimal,
}
use cloud_agent_platform.Lifecycle.{SubtaskType, analysis, coding, review, testing, research}

pub data DecompositionStrategy : Type 0 where
  by_file by_module by_feature auto : DecompositionStrategy
  other_strategy : String → DecompositionStrategy

pub record TaskComponent : Type 0 where
  pub id : String
  pub description : String
  pub type : SubtaskType

unfoldable pub drop_empty : List String → List String
drop_empty [] = []
drop_empty (p ∷ ps) = let rest = drop_empty ps in if nat_beq (count p) 0 then rest else p ∷ rest

unfoldable pub split_and_keep : String → String → List String
unfolding drop_empty split
split_and_keep s delim = drop_empty (split s delim)

unfoldable pub split_all : List String → String → List String
unfolding split_and_keep
split_all [] delim = []
split_all (seg ∷ segs) delim = split_and_keep seg delim ++ split_all segs delim

abbrev pub or_if_empty : List String → List String → List String
or_if_empty old [] = old
or_if_empty old (s ∷ ss) = s ∷ ss

unfoldable pub split_by : List String → List String → List String
unfolding split_all
split_by [] segments = segments
split_by (delim ∷ delims) segments =
    split_by delims (or_if_empty segments (split_all segments delim))

-- The final pass keeps empty parts.
unfoldable pub split_last : List String → List String
unfolding split
split_last [] = []
split_last (seg ∷ segs) = split seg " and " ++ split_last segs

unfoldable pub split_goal_segments : String → List String
unfolding trim_prefix split_by split_last
split_goal_segments goal =
    let g = trim_prefix (trim_prefix (trim_prefix goal "I need to ") "Please ") "Could you " in
    split_last
      (or_if_empty (g ∷ []) (split_by (" and " ∷ " then " ∷ ". " ∷ "; " ∷ "\n" ∷ []) (g ∷ [])))

abbrev pub ends_name : Char → Bool
ends_name c =
    let n = code c in
    nat_beq n b' ' || nat_beq n b',' || nat_beq n b';' || nat_beq n b'.' || nat_beq n 10

-- `description[at:]` up to the next delimiter, if one follows the first character.
unfoldable pub name_at : String → ℕ → String
unfolding take_until
name_at description at =
    let after = slice description at (len description) in
    let name = take_until ends_name after in if nat_beq (count name) 0 then after else name

module _ (to_lower : String → String) where
  unfoldable pub determine_strategy : String → DecompositionStrategy → DecompositionStrategy
  determine_strategy goal auto =
      let g = to_lower goal in
      if contains_text g "file" || contains_text g "modify" || contains_text g "update"
      then by_file
      else if contains_text g "module" || contains_text g "package" || contains_text g "service"
      then by_module
      else if contains_text g "feature" || contains_text g "implement" || contains_text g "add"
      then by_feature
      else by_feature
  determine_strategy goal by_file = by_file
  determine_strategy goal by_module = by_module
  determine_strategy goal by_feature = by_feature
  determine_strategy goal (other_strategy s) = other_strategy s

  unfoldable pub classify_component : String → SubtaskType
  classify_component segment =
      let s = to_lower segment in
      if contains_text s "test" || contains_text s "verify" || contains_text s "check"
      then testing
      else if contains_text s "review" || contains_text s "refactor" || contains_text s "improve"
      then review
      else if contains_text s "analyze"
          || contains_text s "investigate"
          || contains_text s "explore"
      then analysis
      else if contains_text s "research" || contains_text s "find" || contains_text s "search"
      then research
      else coding

  -- The loop over the segments, from the index `i`.
  unfoldable pub components_from : ℕ → List String → List TaskComponent
  unfolding classify_component trim_space decimal
  components_from i [] = []
  components_from i (segment ∷ segments) =
      let t = trim_space segment in
      let rest = components_from (i + 1) segments in
      if nat_beq (count t) 0
      then rest
      else record {
        id = str_append "component-" (decimal (i + 1));
        description = t;
        type = classify_component t;
      }
        ∷ rest

  unfoldable pub parse_task_goal : String → List TaskComponent
  unfolding components_from split_goal_segments
  parse_task_goal goal = components_from 0 (split_goal_segments goal)

  -- The position is found in the text in lower case and used in the text itself; `none` is the
  -- panic of a slice that starts beyond the end.
  unfoldable pub module_name_from : String → List String → Option String
  unfolding name_at first_field
  module_name_from description [] = elim (first_field description) [
    | none ↦ some "unknown"
    | some word ↦ some word
  ]
  module_name_from description (pattern' ∷ patterns) =
      let rest = module_name_from description patterns in
      elim (find? (to_lower description) pattern') [
        | none ↦ rest
        | some idx ↦
            if ltb (len description) (idx + len pattern')
            then none
            else some (name_at description (idx + len pattern'))
      ]

  unfoldable pub extract_module_name : String → Option String
  unfolding module_name_from
  extract_module_name description =
      module_name_from description ("module " ∷ "package " ∷ "service " ∷ "component " ∷ [])
