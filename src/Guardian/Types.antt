-- ===== src/Guardian/Types.antt =====
-- The data of internal/guardian: types.go, and what the methods return.
use cloud_agent_platform.Base.{ℕ, String, Bool}

pub data RiskLevel : Type 0 where
  low medium high : RiskLevel

-- A string that is none of the four constants is `unknown`.
pub data ApprovalResult : Type 0 where
  approved rejected timeout escalated : ApprovalResult
  unknown : String → ApprovalResult

pub record ApprovalRequest : Type 0 where
  pub task_id : String
  pub task_goal : String
  pub estimated_cost : ℕ  -- float64
  pub risk_level : RiskLevel
  pub requested_at : ℕ
  pub expires_at : ℕ
  pub require_approval : Bool
  pub timeout_duration : ℕ

pub record ApprovalDecision : Type 0 where
  pub task_id : String
  pub result : ApprovalResult
  pub reason : String
  pub decided_by : String
  pub decided_at : ℕ

-- The event that is returned: its type and its payload.
pub record ApprovalEvent : Type 0 where
  pub event_type : String
  pub task_id : String
  pub result : ApprovalResult
  pub reason : String
  pub decided_by : String
  pub decided_at : ℕ

pub data GuardianError : Type 0 where
  task_is_nil request_not_found decision_is_nil event_refused : GuardianError
  unknown_result : String → GuardianError

-- A result that was sent to the caller that waits on a request.
pub record Signal : Type 0 where
  pub request : ApprovalRequest
  pub sent : ApprovalResult
