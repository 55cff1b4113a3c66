-- ===== src/Lifecycle.antt =====
-- internal/domain/task-types.go: the enumerations of the domain.
-- The Go types are strings with named constants. A value here is one of the constants; `parse` reads
-- a string, and `IsValid` of the source is the test that it succeeds.
pub mod Names
pub mod Machines
pub mod Building
pub mod Graph
pub mod Firing
pub mod Entity
pub mod Task
pub mod Subtask
mod Examples
use cloud_agent_platform.Base.{
  ℕ, ◌≡◌, refl, ◌↔◌, String, Bool, true, false, ◌||◌, Option, none, some, arith, Comparable, ◌==◌,
  nat_beq, string_comparable, if◌then◌else◌, is_some,
}

pub data TaskStatus : Type 0 where
  pending dispatched running reviewing confirming completed failed cancelled : TaskStatus

pub data SubtaskType : Type 0 where
  analysis coding review testing research : SubtaskType

pub data AgentRole : Type 0 where
  observer strategist executor guardian tester researcher : AgentRole

-- A number for each status, by which statuses are compared.
abbrev pub status_code : TaskStatus → ℕ
status_code pending = 0
status_code dispatched = 1
status_code running = 2
status_code reviewing = 3
status_code confirming = 4
status_code completed = 5
status_code failed = 6
status_code cancelled = 7

abbrev pub status_beq : TaskStatus → TaskStatus → Bool
status_beq a b = nat_beq (status_code a) (status_code b)

pub status_beq_iff : (a b : TaskStatus) → (status_beq a b ≡ true) ↔ (a ≡ b)
status_beq_iff a b = ground arith

instance abbrev pub status_comparable : Comparable TaskStatus
status_comparable = record { same = status_beq; same_iff = status_beq_iff }

unfoldable pub status_to_string : TaskStatus → String
status_to_string pending = "pending"
status_to_string dispatched = "dispatched"
status_to_string running = "running"
status_to_string reviewing = "reviewing"
status_to_string confirming = "confirming"
status_to_string completed = "completed"
status_to_string failed = "failed"
status_to_string cancelled = "cancelled"

unfoldable pub parse_status : String → Option TaskStatus
parse_status s =
    if s == "pending"
    then some pending
    else if s == "dispatched"
    then some dispatched
    else if s == "running"
    then some running
    else if s == "reviewing"
    then some reviewing
    else if s == "confirming"
    then some confirming
    else if s == "completed"
    then some completed
    else if s == "failed"
    then some failed
    else if s == "cancelled"
    then some cancelled
    else none

unfoldable pub status_is_valid : String → Bool
unfolding parse_status
status_is_valid s = is_some (parse_status s)

unfoldable pub is_terminal : TaskStatus → Bool
is_terminal s = s == completed || s == failed || s == cancelled

unfoldable pub subtask_type_to_string : SubtaskType → String
subtask_type_to_string analysis = "analysis"
subtask_type_to_string coding = "coding"
subtask_type_to_string review = "review"
subtask_type_to_string testing = "testing"
subtask_type_to_string research = "research"

unfoldable pub parse_subtask_type : String → Option SubtaskType
parse_subtask_type s =
    if s == "analysis"
    then some analysis
    else if s == "coding"
    then some coding
    else if s == "review"
    then some review
    else if s == "testing"
    then some testing
    else if s == "research"
    then some research
    else none

unfoldable pub agent_role_to_string : AgentRole → String
agent_role_to_string observer = "observer"
agent_role_to_string strategist = "strategist"
agent_role_to_string executor = "executor"
agent_role_to_string guardian = "guardian"
agent_role_to_string tester = "tester"
agent_role_to_string researcher = "researcher"

unfoldable pub parse_agent_role : String → Option AgentRole
parse_agent_role s =
    if s == "observer"
    then some observer
    else if s == "strategist"
    then some strategist
    else if s == "executor"
    then some executor
    else if s == "guardian"
    then some guardian
    else if s == "tester"
    then some tester
    else if s == "researcher"
    then some researcher
    else none
