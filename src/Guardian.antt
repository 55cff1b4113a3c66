-- ===== src/Guardian.antt =====
-- internal/guardian: the approval of tasks that cost much. guardian.go, types.go and the sweep of
-- timeout.go.
-- `pendingReq` is a list with one request for each task. `ResultCh` takes one result and is closed
-- after it: a request that a decision takes from the list is signalled once, one that is overwritten
-- never. What was sent to whom is a result of the call. Whether `domain.NewDomainEvent` accepts the
-- event is an argument.
mod Types
pub mod Expiry
pub mod Approval
mod Examples
pub use Types.*
use cloud_agent_platform.Base.{
  ℕ, ◌+◌, ◌%◌, String, Bool, true, false, not, Option, none, some, List, [], ◌∷◌, ◌++◌, ◌==◌,
  string_comparable, if◌then◌else◌, nat_beq,
}
use cloud_agent_platform.Base.Int64.{slt, sle, modulus}
use cloud_agent_platform.Base.Float.{Float}
use cloud_agent_platform.Lifecycle.Entity.{Task}

unfoldable pub put_request : ApprovalRequest → List ApprovalRequest → List ApprovalRequest
put_request q [] = q ∷ []
put_request q (r ∷ rs) = if r.task_id == q.task_id then q ∷ rs else r ∷ put_request q rs

unfoldable pub get_request : String → List ApprovalRequest → Option ApprovalRequest
get_request id [] = none
get_request id (r ∷ rs) = if r.task_id == id then some r else get_request id rs

unfoldable pub delete_request : String → List ApprovalRequest → List ApprovalRequest
delete_request id [] = []
delete_request id (r ∷ rs) = if r.task_id == id then rs else r ∷ delete_request id rs

-- The switch of `ProcessApproval`.
unfoldable pub event_of : ApprovalDecision → ApprovalResult → Option ApprovalEvent
event_of d approved = some record {
  event_type = "TaskUserApprovedV1";
  task_id = d.task_id;
  result = approved;
  reason = d.reason;
  decided_by = d.decided_by;
  decided_at = d.decided_at;
}
event_of d rejected = some record {
  event_type = "TaskUserRejectedV1";
  task_id = d.task_id;
  result = rejected;
  reason = d.reason;
  decided_by = d.decided_by;
  decided_at = d.decided_at;
}
event_of d timeout = some record {
  event_type = "TaskConfirmationTimeoutV1";
  task_id = d.task_id;
  result = timeout;
  reason = "approval timeout";
  decided_by = "system";
  decided_at = d.decided_at;
}
event_of d escalated = some record {
  event_type = "TaskEscalatedV1";
  task_id = d.task_id;
  result = escalated;
  reason = d.reason;
  decided_by = d.decided_by;
  decided_at = d.decided_at;
}
event_of d (unknown s) = none

abbrev pub result_text : ApprovalResult → String
result_text (unknown s) = s
result_text _ = ""

-- The requests that are left, the signal, and the event or the error.
pub record Processed : Type 0 where
  pub pending_req : List ApprovalRequest
  pub signalled : Option Signal
  pub event : Option ApprovalEvent
  pub error : Option GuardianError

-- `ProcessApproval`; `accepts` tells whether the domain accepts the event.
unfoldable pub process_approval :
    (ApprovalEvent → Bool) → Option ApprovalDecision → List ApprovalRequest → Processed
unfolding get_request delete_request event_of
process_approval accepts none rs = record {
  pending_req = rs;
  signalled = none;
  event = none;
  error = some decision_is_nil;
}
process_approval accepts (some d) rs = record {
  pending_req = elim (get_request d.task_id rs) [
    | none ↦ rs
    | some _ ↦ delete_request d.task_id rs
  ];
  signalled = elim (get_request d.task_id rs) [
    | none ↦ none
    | some r ↦ some record { request = r; sent = d.result }
  ];
  event = elim (event_of d d.result) [ none ↦ none | some e ↦ if accepts e then some e else none ];
  error = elim (event_of d d.result) [
    | none ↦ some (unknown_result (result_text d.result))
    | some e ↦ if accepts e then none else some event_refused
  ];
}

-- `HandleTimeout`
abbrev pub timeout_decision : ℕ → String → ApprovalDecision
timeout_decision now id = record {
  task_id = id;
  result = timeout;
  reason = "approval timeout exceeded";
  decided_by = "system";
  decided_at = now;
}

unfoldable pub handle_timeout :
    (ApprovalEvent → Bool) → ℕ → String → List ApprovalRequest → Processed
unfolding process_approval
handle_timeout accepts now id rs = process_approval accepts (some (timeout_decision now id)) rs

unfoldable pub is_pending_request : String → List ApprovalRequest → Bool
unfolding get_request
is_pending_request id rs = elim (get_request id rs) [ none ↦ false | some _ ↦ true ]

-- `checkExpiredApprovals`: times are compared as int64.
abbrev pub has_expired : ℕ → ApprovalRequest → Bool
has_expired now r = sle r.expires_at now

unfoldable pub expired_ids : ℕ → List ApprovalRequest → List String
expired_ids now [] = []
expired_ids now (r ∷ rs) =
    if has_expired now r then r.task_id ∷ expired_ids now rs else expired_ids now rs

abbrev pub add_signal : Option Signal → List Signal → List Signal
add_signal none ss = ss
add_signal (some s) ss = s ∷ ss

unfoldable pub handle_timeouts :
    (ApprovalEvent → Bool)
    → ℕ
    → List String
    → List ApprovalRequest
    → List ApprovalRequest × List Signal
unfolding handle_timeout
handle_timeouts accepts now [] rs = (rs, [])
handle_timeouts accepts now (id ∷ more) rs =
    let p = handle_timeout accepts now id rs in
    let (left, sent) = handle_timeouts accepts now more p.pending_req in
    (left, add_signal p.signalled sent)

unfoldable pub check_expired_approvals :
    (ApprovalEvent → Bool) → ℕ → List ApprovalRequest → List ApprovalRequest × List Signal
unfolding handle_timeouts expired_ids
check_expired_approvals accepts now rs = handle_timeouts accepts now (expired_ids now rs) rs

module _ (fl : Float) where
  open fl use {F, of_int, of_bits, greater, equal}

  pub record ApprovalConfig : Type 0 where
    pub default_timeout : ℕ
    pub max_timeout : ℕ
    pub high_risk_cost_threshold : F

  abbrev pub default_approval_config : ApprovalConfig
  default_approval_config = record {
    default_timeout = 300_000_000_000;
    max_timeout = 1_800_000_000_000;
    high_risk_cost_threshold = of_int 1;
  }

  pub record Guardian : Type 0 where
    pub cfg : ApprovalConfig
    pub pending_req : List ApprovalRequest

  unfoldable pub new_guardian : ApprovalConfig → Guardian
  new_guardian cfg = record {
    cfg = record {
      default_timeout =
          if nat_beq cfg.default_timeout 0 then 300_000_000_000 else cfg.default_timeout;
      max_timeout = if nat_beq cfg.max_timeout 0 then 1_800_000_000_000 else cfg.max_timeout;
      high_risk_cost_threshold =
          if equal cfg.high_risk_cost_threshold (of_int 0)
          then of_int 1
          else cfg.high_risk_cost_threshold;
    };
    pending_req = [];
  }

  unfoldable pub needs_approval : Option Task → Guardian → Bool
  needs_approval none g = false
  needs_approval (some t) g = greater (of_bits t.estimated_cost) g.cfg.high_risk_cost_threshold

  unfoldable pub evaluate_risk_level : Option Task → RiskLevel
  evaluate_risk_level none = low
  evaluate_risk_level (some t) =
      if greater (of_bits t.estimated_cost) (of_int 100)
      then high
      else if greater (of_bits t.estimated_cost) (of_int 10)
      then medium
      else low

  abbrev pub chosen_timeout : ApprovalConfig → ℕ → ℕ
  chosen_timeout cfg custom =
      if slt 0 custom
      then (if slt cfg.max_timeout custom then cfg.max_timeout else custom)
      else cfg.default_timeout

  abbrev pub new_request : ApprovalConfig → Task → ℕ → ℕ → ApprovalRequest
  new_request cfg t custom now = record {
    task_id = t.id;
    task_goal = t.goal;
    estimated_cost = t.estimated_cost;
    risk_level = evaluate_risk_level (some t);
    requested_at = now;
    expires_at = (now + chosen_timeout cfg custom) % modulus;
    require_approval = true;
    timeout_duration = chosen_timeout cfg custom;
  }

  unfoldable pub request_approval :
      Option Task → ℕ → ℕ → Guardian → Guardian × Option ApprovalRequest × Option GuardianError
  unfolding put_request
  request_approval none custom now g = (g, none, some task_is_nil)
  request_approval (some t) custom now g =
      let q = new_request g.cfg t custom now in
      (record g { pending_req = put_request q g.pending_req }, some q, none)
