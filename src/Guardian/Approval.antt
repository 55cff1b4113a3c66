-- ===== src/Guardian/Approval.antt =====
-- Who is signalled, and which requests stay.
use mathlib.Core.Path.{subst}
use cloud_agent_platform.Base.{
  ℕ, ◌≡◌, refl, sym, inl, inr, String, Bool, false, Option, none, some, List, [], ◌∷◌, arith, ◌==◌,
  string_comparable, same_self, if◌then◌else◌, contains, IsDistinct, Option-cases,
}
use cloud_agent_platform.Base.Float.{Float}
use cloud_agent_platform.Lifecycle.Entity.{Task}
use cloud_agent_platform.Guardian.{
  ApprovalRequest, ApprovalDecision, ApprovalEvent, Signal, Guardian, put_request, get_request,
  delete_request, process_approval, new_request, request_approval,
}

unfoldable pub task_ids : List ApprovalRequest → List String
task_ids [] = []
task_ids (r ∷ rs) = r.task_id ∷ task_ids rs

get_request-absent :
    (id : String) (rs : List ApprovalRequest)
    → contains id (task_ids rs) ≡ false
    → get_request id rs ≡ none
unfolding contains task_ids get_request
get_request-absent id [] h = refl
get_request-absent id (r ∷ rs) h = ground (arith, get_request-absent id rs)

get_request-delete_request :
    (id key : String) (rs : List ApprovalRequest)
    → IsDistinct (task_ids rs)
    → get_request id (delete_request key rs) ≡ (if key == id then none else get_request id rs)
unfolding task_ids get_request delete_request
get_request-delete_request id key [] d = ground arith
get_request-delete_request id key (r ∷ rs) (fresh, d) = ground (
  arith,
  get_request-delete_request id key rs d,
  get_request-absent r.task_id rs fresh,
  string_comparable.same_iff r.task_id key,
  string_comparable.same_iff r.task_id id,
  string_comparable.same_iff key id,
)

get_request-put_request :
    (q : ApprovalRequest) (rs : List ApprovalRequest)
    → get_request q.task_id (put_request q rs) ≡ some q
unfolding get_request put_request
get_request-put_request q [] = ground (arith, same_self q.task_id)
get_request-put_request q (r ∷ rs) =
    ground (arith, same_self q.task_id, get_request-put_request q rs)

-- The signal of a decision on what was pending.
abbrev pub signal_to : ApprovalDecision → Option ApprovalRequest → Option Signal
signal_to d none = none
signal_to d (some r) = some record { request = r; sent = d.result }

-- A decision signals its result to the pending request of its task, if there is one, and takes it
-- away; the requests of other tasks stay. That holds of every result, the unknown ones too, and
-- whether or not the event is accepted, if the tasks of the pending requests differ.
pub process_approval_lem :
    (id : String) (accepts : ApprovalEvent → Bool) (d : ApprovalDecision)
    (rs : List ApprovalRequest)
    → IsDistinct (task_ids rs)
    → let p = process_approval accepts (some d) rs in
      (p.signalled ≡ signal_to d (get_request d.task_id rs))
      × (get_request id p.pending_req ≡ (if d.task_id == id then none else get_request id rs))
unfolding process_approval
process_approval_lem id accepts d rs distinct = elim (Option-cases (get_request d.task_id rs)) [
  | inl e ↦ rw (e, process_approval) (refl, ground (arith, string_comparable.same_iff d.task_id id))
  | inr (r, e) ↦
      rw (e, process_approval) (refl, get_request-delete_request id d.task_id rs distinct)
]

signalled-found :
    (accepts : ApprovalEvent → Bool) (d : ApprovalDecision) (rs : List ApprovalRequest)
    (r : ApprovalRequest)
    → get_request d.task_id rs ≡ some r
    → (process_approval accepts (some d) rs).signalled
      ≡ some record { request = r; sent = d.result }
unfolding process_approval
signalled-found accepts d rs r e = rw (e, process_approval) refl

module _ (fl : Float) where
  -- A request of approval replaces the pending request of its task, and a decision on the task is
  -- signalled to the new one alone.
  request_approval-process :
      (accepts : ApprovalEvent → Bool) (d : ApprovalDecision) (t : Task) (custom now : ℕ)
      (g : Guardian fl)
      → d.task_id ≡ t.id
      → (process_approval accepts
          (some d)
          (request_approval fl (some t) custom now g).0.pending_req).signalled
        ≡ some record { request = new_request fl g.cfg t custom now; sent = d.result }
  unfolding request_approval
  request_approval-process accepts d t custom now g e =
      let q = new_request fl g.cfg t custom now in
      let found = get_request-put_request q g.pending_req in
      signalled-found accepts d (put_request q g.pending_req) q
        (subst (λ i. get_request i (put_request q g.pending_req) ≡ some q) (sym e) found)
