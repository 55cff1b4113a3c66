-- ===== src/Guardian/Examples.antt =====
-- The theorems of the guardian at concrete requests, with costs in whole hundredths.
use cloud_agent_platform.Base.{
  ℕ, ◌≡◌, refl, String, Bool, true, none, some, List, [], ◌∷◌, string_comparable, if◌then◌else◌,
  IsDistinct, contains,
}
use cloud_agent_platform.Base.Float.{hundredths}
use cloud_agent_platform.Lifecycle.Entity.{Task, new_task}
use cloud_agent_platform.Guardian.{
  high, medium, ApprovalRequest, ApprovalDecision, ApprovalEvent, Guardian, default_approval_config,
  approved, unknown, get_request, process_approval, check_expired_approvals, handle_timeouts,
  expired_ids, needs_approval, evaluate_risk_level, timeout,
}
use cloud_agent_platform.Guardian.Approval.{task_ids, signal_to, process_approval_lem}
use cloud_agent_platform.Guardian.Expiry.{unexpired, timeouts, check_expired_approvals_lem}

abbrev request : String → ℕ → ApprovalRequest
request id expires_at = record {
  task_id = id;
  task_goal = "deploy";
  estimated_cost = 500;
  risk_level = medium;
  requested_at = 0;
  expires_at = expires_at;
  require_approval = true;
  timeout_duration = expires_at;
}

abbrev waiting : List ApprovalRequest
waiting = request "t1" 10 ∷ request "t2" 20 ∷ request "t3" 10 ∷ []

waiting-IsDistinct : IsDistinct (task_ids waiting)
unfolding task_ids contains
waiting-IsDistinct = (refl, (refl, (refl, tt)))

abbrev decision : ApprovalDecision
decision = record {
  task_id = "t2";
  result = approved;
  reason = "fine";
  decided_by = "user";
  decided_at = 5;
}

abbrev accepts_all : ApprovalEvent → Bool
accepts_all _ = true

process_approval_lem_example :
    let p = process_approval accepts_all (some decision) waiting in
    (p.signalled ≡ signal_to decision (get_request "t2" waiting))
    × (get_request "t3" p.pending_req
        ≡ (if string_comparable.same "t2" "t3" then none else get_request "t3" waiting))
process_approval_lem_example =
    process_approval_lem "t3" accepts_all decision waiting waiting-IsDistinct

check_expired_approvals_lem_example :
    check_expired_approvals accepts_all 10 waiting ≡ (unexpired 10 waiting, timeouts 10 waiting)
check_expired_approvals_lem_example =
    check_expired_approvals_lem accepts_all 10 waiting waiting-IsDistinct

abbrev costly : Task
unfolding new_task
costly = record (new_task "t2" "deploy" "repo" "main" "client" 1) { estimated_cost = 20_000 }

abbrev guardian : Guardian hundredths
guardian = record { cfg = default_approval_config hundredths; pending_req = waiting }

same_task : "t2" ≡ costly.id
unfolding costly
same_task = refl

needs_approval_test : needs_approval hundredths (some costly) guardian ≡ true
unfolding needs_approval costly
needs_approval_test = refl

risk_test : evaluate_risk_level hundredths (some costly) ≡ high
unfolding evaluate_risk_level costly
risk_test = refl

-- A decision that the guardian does not know takes the pending request away all the same.
unknown_consumes :
    get_request "t2"
      (process_approval accepts_all
        (some record decision { result = unknown "maybe" })
        waiting).pending_req
    ≡ none
unfolding process_approval get_request
unknown_consumes = refl

-- A request that was renewed after the sweep listed its task is timed out before its own time.
renewed_times_out :
    handle_timeouts accepts_all 10 (expired_ids 10 (request "t1" 10 ∷ [])) (request "t1" 500 ∷ [])
    ≡ ([], record { request = request "t1" 500; sent = timeout } ∷ [])
unfolding handle_timeouts expired_ids
renewed_times_out = refl
