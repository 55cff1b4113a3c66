-- ===== src/Events/Approvals.antt =====
-- The events of the guardian, which go through `NewDomainEvent`.
use cloud_agent_platform.Base.{
  ℕ, String, Bool, true, false, Option, none, some, string_comparable, if◌then◌else◌,
}
use cloud_agent_platform.Guardian.{
  ApprovalDecision, ApprovalEvent, ApprovalResult, unknown, GuardianError, event_refused,
  unknown_result, event_of,
}
use cloud_agent_platform.Events.{NewEvent, created, refused, new_domain_event}
use cloud_agent_platform.Events.EventType.{has_colon}

abbrev pub is_created : NewEvent → Bool
is_created (created e) = true
is_created (refused err) = false

-- Does the domain accept the event? The guardian gives every event the version 1.
unfoldable pub domain_accepts : (ulid : String) (now : ℕ) (payload : String) → ApprovalEvent → Bool
unfolding new_domain_event
domain_accepts ulid now payload e =
    is_created (new_domain_event ulid now "Task" e.task_id e.event_type payload 1)

-- What `ProcessApproval` returns as its error.
abbrev pub approval_error : ApprovalDecision → ApprovalResult → Option GuardianError
approval_error d (unknown s) = some (unknown_result s)
approval_error d _ = if has_colon d.task_id then some event_refused else none

-- What it returns as its event.
abbrev pub approval_event : ApprovalDecision → ApprovalResult → Option ApprovalEvent
approval_event d result = if has_colon d.task_id then none else event_of d result
