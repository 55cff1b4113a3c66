-- ===== src/Conversation/Parts.antt =====
-- internal/domain/context/context.go: constraints, file states and messages, and the estimate of
-- tokens.
use cloud_agent_platform.Base.{
  ℕ, ◌+◌, ◌/◌, ◌%◌, String, Bool, true, false, Option, none, some, nat_beq, if◌then◌else◌,
}
use Prim.Native.String.{◌++◌ as str_append, len}
use cloud_agent_platform.Base.Int64.{modulus, mul}

-- `a + b` of an int.
abbrev pub plus : ℕ → ℕ → ℕ
plus a b = (a + b) % modulus

-- `a == b` of an int.
abbrev pub same_int : ℕ → ℕ → Bool
same_int a b = nat_beq (a % modulus) (b % modulus)

pub data ConstraintStrength : Type 0 where
  non_negotiable preferable : ConstraintStrength

abbrev pub strength_to_string : ConstraintStrength → String
strength_to_string non_negotiable = "NON_NEGOTIABLE"
strength_to_string preferable = "PREFERABLE"

pub data FileChangeType : Type 0 where
  created modified deleted renamed : FileChangeType

pub data MessageRole : Type 0 where
  user agent system : MessageRole

pub record Constraint : Type 0 where
  pub id : String
  pub strength : ConstraintStrength
  pub category : String
  pub description : String
  pub created_at : ℕ
  pub priority : ℕ

pub record FileState : Type 0 where
  pub id : String
  pub path : String
  pub content_hash : String
  pub modified_at : ℕ
  pub change_type : FileChangeType
  pub priority : ℕ
  pub size_bytes : ℕ
  pub diff_summary : String

pub record ConversationMessage : Type 0 where
  pub id : String
  pub role : MessageRole
  pub content : String
  pub timestamp : ℕ
  pub token_count : ℕ
  pub priority : ℕ
  pub subtask_id : Option String

-- `len` counts bytes; a text is shorter than 2 ^ 63 - 3 of them.
unfoldable pub estimate_tokens : String → ℕ
estimate_tokens text = if nat_beq (len text) 0 then 0 else (len text + 3) / 4

abbrev pub estimate_tokens_for_struct : ℕ → ℕ
estimate_tokens_for_struct field_count = mul field_count 10

unfoldable pub new_constraint :
    (ulid : String) → ℕ → ConstraintStrength → String → String → Constraint
new_constraint ulid now strength category description = record {
  id = ulid;
  strength = strength;
  category = category;
  description = description;
  created_at = now;
  priority = 0;
}

abbrev pub is_hard : Constraint → Bool
is_hard c = elim c.strength [ non_negotiable ↦ true | preferable ↦ false ]

unfoldable pub compression_key : Constraint → String
compression_key c = str_append c.category (str_append ":" (strength_to_string c.strength))

unfoldable pub new_file_state :
    (ulid : String) → ℕ → (path content_hash : String) → FileChangeType → ℕ → FileState
new_file_state ulid now path content_hash change_type size_bytes = record {
  id = ulid;
  path = path;
  content_hash = content_hash;
  modified_at = now;
  change_type = change_type;
  priority = 0;
  size_bytes = size_bytes;
  diff_summary = "";
}

unfoldable pub new_file_state_modified :
    (ulid : String) → ℕ → (path content_hash : String) → ℕ → String → FileState
unfolding new_file_state
new_file_state_modified ulid now path content_hash size_bytes diff_summary =
    record (new_file_state ulid now path content_hash modified size_bytes) {
      diff_summary = diff_summary;
    }

unfoldable pub new_file_state_deleted : (ulid : String) → ℕ → String → FileState
unfolding new_file_state
new_file_state_deleted ulid now path = new_file_state ulid now path "" deleted 0

unfoldable pub new_conversation_message :
    (ulid : String) → ℕ → MessageRole → String → ConversationMessage
unfolding estimate_tokens
new_conversation_message ulid now role content = record {
  id = ulid;
  role = role;
  content = content;
  timestamp = now;
  token_count = estimate_tokens content;
  priority = 0;
  subtask_id = none;
}

abbrev pub with_subtask : String → ConversationMessage → ConversationMessage
with_subtask subtask_id m = record m { subtask_id = some subtask_id }

abbrev pub set_priority : ℕ → ConversationMessage → ConversationMessage
set_priority priority m = record m { priority = priority }
