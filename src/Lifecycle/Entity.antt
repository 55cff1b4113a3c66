-- ===== src/Lifecycle/Entity.antt =====
-- internal/domain/entity.go: the task and subtask aggregates.
-- A method that mutates its receiver returns the new record and the error; the outer `Option` is a
-- panic of the state machine. Time is a number given to the method that reads the clock. A float64
-- field is its bit pattern, and is not read here.
use cloud_agent_platform.Base.{ℕ, String, Option, none, List, [], ◌∷◌, ◌++◌}
use Prim.Native.String.{◌++◌ as str_append}
use cloud_agent_platform.Fsm.{Error}
use cloud_agent_platform.Lifecycle.{TaskStatus, pending, SubtaskType}

pub record DomainEvent : Type 0 where
  pub event_id : String
  pub aggregate_type : String
  pub aggregate_id : String
  pub event_type : String
  pub payload : String
  pub occurred_at : ℕ
  pub idempotency_key : String
  pub version : ℕ

pub record AgentHint : Type 0 where
  pub templates : List String
  pub model : String
  pub max_agents : ℕ

pub record Task : Type 0 where
  pub id : String
  pub version : ℕ  -- int64
  pub events : List DomainEvent
  pub goal : String
  pub status : TaskStatus
  pub priority : ℕ
  pub repository_url : String
  pub base_branch : String
  pub result_branch : String
  pub constraints : List String
  pub verification_criteria : List String
  pub agent_hint : Option AgentHint
  pub progress : ℕ
  pub tokens_used : ℕ
  pub estimated_cost : ℕ
  pub agents_used : ℕ
  pub client_id : String
  pub tags : List String
  pub created_at : ℕ
  pub started_at : Option ℕ
  pub completed_at : Option ℕ

pub record ArtifactRef : Type 0 where
  pub id : String
  pub type : String
  pub summary : String
  pub url : String
  pub size : ℕ
  pub create_at : ℕ

pub record Subtask : Type 0 where
  pub id : String
  pub version : ℕ  -- int64
  pub events : List DomainEvent
  pub task_id : String
  pub type : SubtaskType
  pub description : String
  pub agent_template : String
  pub agent_instance : Option String
  pub status : TaskStatus
  pub summary : Option String
  pub artifacts : List ArtifactRef
  pub tokens_used : ℕ
  pub dependencies : List String
  pub started_at : Option ℕ
  pub completed_at : Option ℕ

abbrev pub TaskError : Type 0
TaskError = Error TaskStatus String

-- The events that an aggregate has recorded, shared by both.
unfoldable pub record_event : DomainEvent → List DomainEvent → List DomainEvent
record_event event events = events ++ event ∷ []

-- What is flushed, and what is left.
unfoldable pub flush_events : List DomainEvent → List DomainEvent × List DomainEvent
flush_events events = (events, [])

unfoldable pub new_task : (id goal repository_url base_branch client_id : String) → ℕ → Task
new_task id goal repository_url base_branch client_id now = record {
  id = id;
  version = 1;
  events = [];
  goal = goal;
  status = pending;
  priority = 5;
  repository_url = repository_url;
  base_branch = base_branch;
  result_branch = str_append base_branch (str_append "/agent/" id);
  constraints = [];
  verification_criteria = [];
  agent_hint = none;
  progress = 0;
  tokens_used = 0;
  estimated_cost = 0;
  agents_used = 0;
  client_id = client_id;
  tags = [];
  created_at = now;
  started_at = none;
  completed_at = none;
}

unfoldable pub new_subtask :
    (id task_id : String) → SubtaskType → (description agent_template : String) → Subtask
new_subtask id task_id sub_type description agent_template = record {
  id = id;
  version = 1;
  events = [];
  task_id = task_id;
  type = sub_type;
  description = description;
  agent_template = agent_template;
  agent_instance = none;
  status = pending;
  summary = none;
  artifacts = [];
  tokens_used = 0;
  dependencies = [];
  started_at = none;
  completed_at = none;
}
