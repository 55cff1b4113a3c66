-- ===== src/Guardian/Expiry.antt =====
-- The sweep over expired requests.
use cloud_agent_platform.Base.{
  ℕ, ◌≡◌, refl, ap, ◌∙◌, inl, inr, String, Bool, false, some, List, [], ◌∷◌, arith, ◌==◌,
  string_comparable, same_self, if◌then◌else◌, contains, IsDistinct, Bool-cases,
}
use cloud_agent_platform.Guardian.{
  ApprovalRequest, ApprovalEvent, Signal, timeout, has_expired, expired_ids, handle_timeout,
  handle_timeouts, check_expired_approvals, process_approval, get_request, delete_request,
  add_signal,
}
use cloud_agent_platform.Guardian.Approval.{task_ids}

-- The specification: what stays, and who is told.
abbrev pub unexpired : ℕ → List ApprovalRequest → List ApprovalRequest
unexpired now [] = []
unexpired now (r ∷ rs) = if has_expired now r then unexpired now rs else r ∷ unexpired now rs

abbrev pub timeouts : ℕ → List ApprovalRequest → List Signal
timeouts now [] = []
timeouts now (r ∷ rs) =
    if has_expired now r
    then record { request = r; sent = timeout } ∷ timeouts now rs
    else timeouts now rs

absent-expired_ids :
    (id : String) (now : ℕ) (rs : List ApprovalRequest)
    → contains id (task_ids rs) ≡ false
    → contains id (expired_ids now rs) ≡ false
unfolding contains task_ids expired_ids
absent-expired_ids id now [] h = refl
absent-expired_ids id now (r ∷ rs) h = ground (arith, absent-expired_ids id now rs)

-- A request that is not asked for stays in front.
handle_timeout-skip :
    (accepts : ApprovalEvent → Bool) (now : ℕ) (id : String) (r : ApprovalRequest)
    (rs : List ApprovalRequest)
    → (id == r.task_id) ≡ false
    → ((handle_timeout accepts now id (r ∷ rs)).pending_req
        ≡ r ∷ (handle_timeout accepts now id rs).pending_req)
      × ((handle_timeout accepts now id (r ∷ rs)).signalled
          ≡ (handle_timeout accepts now id rs).signalled)
unfolding handle_timeout process_approval get_request delete_request
handle_timeout-skip accepts now id r rs h =
    ground (arith, string_comparable.same_iff r.task_id id, string_comparable.same_iff id r.task_id)

handle_timeouts-skip :
    (accepts : ApprovalEvent → Bool) (now : ℕ) (names : List String) (r : ApprovalRequest)
    (rs : List ApprovalRequest)
    → contains r.task_id names ≡ false
    → ((handle_timeouts accepts now names (r ∷ rs)).0
        ≡ r ∷ (handle_timeouts accepts now names rs).0)
      × ((handle_timeouts accepts now names (r ∷ rs)).1 ≡ (handle_timeouts accepts now names rs).1)
unfolding handle_timeouts contains
handle_timeouts-skip accepts now [] r rs h = (refl, refl)
handle_timeouts-skip accepts now (id ∷ more) r rs h =
    let (left, sent) = handle_timeout-skip accepts now id r rs (ground arith) in
    let (left', sent') =
      handle_timeouts-skip accepts now more r (handle_timeout accepts now id rs).pending_req
        (ground arith) in
    rw (left, sent) (left', ap (add_signal (handle_timeout accepts now id rs).signalled) sent')

handle_timeout-first :
    (accepts : ApprovalEvent → Bool) (now : ℕ) (r : ApprovalRequest) (rs : List ApprovalRequest)
    → ((handle_timeout accepts now r.task_id (r ∷ rs)).pending_req ≡ rs)
      × ((handle_timeout accepts now r.task_id (r ∷ rs)).signalled
          ≡ some record { request = r; sent = timeout })
unfolding handle_timeout process_approval get_request delete_request
handle_timeout-first accepts now r rs = ground (arith, same_self r.task_id)

handle_timeouts-first :
    (accepts : ApprovalEvent → Bool) (now : ℕ) (names : List String) (r : ApprovalRequest)
    (rs : List ApprovalRequest)
    → ((handle_timeouts accepts now (r.task_id ∷ names) (r ∷ rs)).0
        ≡ (handle_timeouts accepts now names rs).0)
      × ((handle_timeouts accepts now (r.task_id ∷ names) (r ∷ rs)).1
          ≡ record { request = r; sent = timeout } ∷ (handle_timeouts accepts now names rs).1)
unfolding handle_timeouts
handle_timeouts-first accepts now names r rs =
    let p = handle_timeout accepts now r.task_id (r ∷ rs) in
    let (left, sent) = handle_timeout-first accepts now r rs in
    (
      ap (λ qs. (handle_timeouts accepts now names qs).0) left,
      ap (λ qs. add_signal p.signalled (handle_timeouts accepts now names qs).1) left
          ∙ ap (λ o. add_signal o (handle_timeouts accepts now names rs).1) sent,
    )

swept :
    (accepts : ApprovalEvent → Bool) (now : ℕ) (rs : List ApprovalRequest)
    → IsDistinct (task_ids rs)
    → ((handle_timeouts accepts now (expired_ids now rs) rs).0 ≡ unexpired now rs)
      × ((handle_timeouts accepts now (expired_ids now rs) rs).1 ≡ timeouts now rs)
unfolding expired_ids task_ids
swept accepts now [] d = unfold handle_timeouts in (refl, refl)
swept accepts now (r ∷ rs) (fresh, d) =
    let (kept, told) = swept accepts now rs d in
    elim (Bool-cases (has_expired now r)) [
      | inl old ↦
          let (left, sent) = handle_timeouts-first accepts now (expired_ids now rs) r rs in
          rw old (left ∙ kept, sent ∙ ap (λ ss. record { request = r; sent = timeout } ∷ ss) told)
      | inr young ↦
          let (left, sent) =
            handle_timeouts-skip accepts now (expired_ids now rs) r rs
              (absent-expired_ids r.task_id now rs fresh) in
          rw young (left ∙ ap (λ qs. r ∷ qs) kept, sent ∙ told)
    ]

-- A sweep leaves exactly the requests that have not expired, in their order, and signals a timeout to
-- each of the others, if the tasks of the pending requests differ.
pub check_expired_approvals_lem :
    (accepts : ApprovalEvent → Bool) (now : ℕ) (rs : List ApprovalRequest)
    → IsDistinct (task_ids rs)
    → check_expired_approvals accepts now rs ≡ (unexpired now rs, timeouts now rs)
unfolding check_expired_approvals
check_expired_approvals_lem accepts now rs d = let (kept, told) = swept accepts now rs d in cc
