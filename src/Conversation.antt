-- ===== src/Conversation.antt =====
-- internal/domain/context/context.go: the context of a task, with its constraints, messages and file
-- states, and the count of its tokens. `Compressor` is in Conversation/Compress.
-- The answers of `NewULID` and of the clock are arguments. `Clone` copies what is a value here.
pub mod Parts
pub mod Compress
pub mod Window
pub mod Counted
pub mod Removal
pub mod Kept
pub mod Inverted
mod Examples
use cloud_agent_platform.Base.{
  ℕ, String, Bool, Option, none, some, List, [], ◌∷◌, ◌++◌, ◌==◌, string_comparable, if◌then◌else◌,
  length, map,
}
use cloud_agent_platform.Base.Int64.{inc, slt, sub}
use cloud_agent_platform.Decompose.Order.{sort_strings}
use cloud_agent_platform.Decompose.Dependencies.{unique_strings}
use cloud_agent_platform.Conversation.Parts.{
  Constraint, FileState, ConversationMessage, is_hard, estimate_tokens, plus,
}

pub record TaskContext : Type 0 where
  pub id : String
  pub task_id : String
  pub goal : String
  pub constraints : List Constraint
  pub messages : List ConversationMessage
  pub file_states : List FileState
  pub token_budget : ℕ
  pub tokens_used : ℕ
  pub created_at : ℕ
  pub updated_at : ℕ
  pub version : ℕ

unfoldable pub new_task_context : (ulid : String) → ℕ → (task_id goal : String) → TaskContext
new_task_context ulid now task_id goal = record {
  id = ulid;
  task_id = task_id;
  goal = goal;
  constraints = [];
  messages = [];
  file_states = [];
  token_budget = 128000;
  tokens_used = 0;
  created_at = now;
  updated_at = now;
  version = 1;
}

unfoldable pub set_token_budget : ℕ → TaskContext → TaskContext
set_token_budget budget tc = record tc { token_budget = budget }

unfoldable pub add_constraint : ℕ → Constraint → TaskContext → TaskContext
add_constraint now c tc = record tc {
  constraints = tc.constraints ++ c ∷ [];
  updated_at = now;
  version = inc tc.version;
}

unfoldable pub add_message : ℕ → ConversationMessage → TaskContext → TaskContext
add_message now m tc = record tc {
  messages = tc.messages ++ m ∷ [];
  tokens_used = plus tc.tokens_used m.token_count;
  updated_at = now;
  version = inc tc.version;
}

unfoldable pub add_file_state : ℕ → FileState → TaskContext → TaskContext
add_file_state now f tc = record tc {
  file_states = tc.file_states ++ f ∷ [];
  updated_at = now;
  version = inc tc.version;
}

-- The loops of `GetConstraintByID` and of `GetFileStateByPath`, which goes from the end.
unfoldable pub find_constraint : String → List Constraint → Option Constraint
find_constraint id [] = none
find_constraint id (c ∷ cs) = if c.id == id then some c else find_constraint id cs

unfoldable pub find_last_path : String → List FileState → Option FileState
find_last_path path [] = none
find_last_path path (f ∷ fs) = elim (find_last_path path fs) [
  | some later ↦ some later
  | none ↦ if f.path == path then some f else none
]

abbrev pub get_constraint_by_id : String → TaskContext → Option Constraint
get_constraint_by_id id tc = find_constraint id tc.constraints

abbrev pub get_file_state_by_path : String → TaskContext → Option FileState
get_file_state_by_path path tc = find_last_path path tc.file_states

unfoldable pub hard_of : List Constraint → List Constraint
hard_of [] = []
hard_of (c ∷ cs) = if is_hard c then c ∷ hard_of cs else hard_of cs

unfoldable pub get_hard_constraints : TaskContext → List Constraint
unfolding hard_of
get_hard_constraints tc = hard_of tc.constraints

unfoldable pub hard_constraints_count : TaskContext → ℕ
unfolding hard_of
hard_constraints_count tc = length (hard_of tc.constraints)

unfoldable pub messages_of : String → List ConversationMessage → List ConversationMessage
messages_of subtask_id [] = []
messages_of subtask_id (m ∷ ms) =
    let rest = messages_of subtask_id ms in
    elim m.subtask_id [ none ↦ rest | some id ↦ if id == subtask_id then m ∷ rest else rest ]

-- The loops of `TotalTokens` and of `RecalculateTokens`, with the count so far.
unfoldable pub add_constraint_tokens : ℕ → List Constraint → ℕ
unfolding estimate_tokens
add_constraint_tokens tokens [] = tokens
add_constraint_tokens tokens (c ∷ cs) =
    add_constraint_tokens (plus (plus tokens (estimate_tokens c.description)) 20) cs

unfoldable pub add_file_tokens : ℕ → List FileState → ℕ
unfolding estimate_tokens
add_file_tokens tokens [] = tokens
add_file_tokens tokens (f ∷ fs) =
    add_file_tokens
      (plus (plus (plus tokens (estimate_tokens f.path)) (estimate_tokens f.diff_summary)) 30) fs

unfoldable pub add_message_tokens : ℕ → List ConversationMessage → ℕ
add_message_tokens tokens [] = tokens
add_message_tokens tokens (m ∷ ms) = add_message_tokens (plus tokens m.token_count) ms

unfoldable pub total_tokens : TaskContext → ℕ
unfolding add_constraint_tokens add_file_tokens
total_tokens tc =
    add_file_tokens (add_constraint_tokens tc.tokens_used tc.constraints) tc.file_states

unfoldable pub remaining_budget : TaskContext → ℕ
unfolding total_tokens
remaining_budget tc = sub tc.token_budget (total_tokens tc)

unfoldable pub is_budget_exceeded : TaskContext → Bool
unfolding total_tokens
is_budget_exceeded tc = slt tc.token_budget (total_tokens tc)

unfoldable pub recalculate_tokens : TaskContext → TaskContext
unfolding add_message_tokens
recalculate_tokens tc = record tc { tokens_used = add_message_tokens 0 tc.messages }

unfoldable pub get_constraint_categories : TaskContext → List String
unfolding sort_strings unique_strings
get_constraint_categories tc = sort_strings (unique_strings (map (λ c. c.category) tc.constraints))
