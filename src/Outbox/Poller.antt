-- ===== src/Outbox/Poller.antt =====
-- internal/infra/outbox/poller.go and the insert of writer.go.
use cloud_agent_platform.Base.{
  ℕ, zero, suc, ◌+◌, String, Bool, true, false, not, ◌&&◌, ◌||◌, Option, none, some, List, [], ◌∷◌,
  ◌==◌, string_comparable, if◌then◌else◌,
}
use cloud_agent_platform.Base.Int64.{inc, slt, sle}

pub data EventStatus : Type 0 where
  pending published failed : EventStatus

abbrev pub is_pending : EventStatus → Bool
is_pending pending = true
is_pending _ = false

abbrev pub is_published : EventStatus → Bool
is_published published = true
is_published _ = false

abbrev pub is_failed : EventStatus → Bool
is_failed failed = true
is_failed _ = false

-- A row of `outbox_events`.
pub record OutboxEvent : Type 0 where
  pub id : String
  pub aggregate_type : String
  pub aggregate_id : String
  pub event_type : String
  pub payload : String
  pub occurred_at : ℕ
  pub idempotency_key : String
  pub status : EventStatus
  pub retry_count : ℕ
  pub last_error : String
  pub created_at : ℕ

-- What the outside answers while one event is processed: the broker's error, whether the context
-- ends during the backoff, and whether the database saves the update.
pub record Answer : Type 0 where
  pub forward_error : Option String
  pub cancelled : Bool
  pub saved : Bool

-- `Update().Where(ID(id))`
unfoldable pub update : String → (OutboxEvent → OutboxEvent) → List OutboxEvent → List OutboxEvent
update id f [] = []
update id f (r ∷ rs) = (if r.id == id then f r else r) ∷ update id f rs

-- `ORDER BY created_at ASC`; equal times keep their order.
unfoldable pub insert_by_time : OutboxEvent → List OutboxEvent → List OutboxEvent
insert_by_time e [] = e ∷ []
insert_by_time e (r ∷ rs) =
    if sle e.created_at r.created_at then e ∷ r ∷ rs else r ∷ insert_by_time e rs

unfoldable pub order_by_time : List OutboxEvent → List OutboxEvent
unfolding insert_by_time
order_by_time [] = []
order_by_time (r ∷ rs) = insert_by_time r (order_by_time rs)

-- `WHERE status = 'pending' AND retry_count < max`
abbrev pub is_due : ℕ → OutboxEvent → Bool
is_due max_retries r = is_pending r.status && slt r.retry_count max_retries

unfoldable pub where_due : ℕ → List OutboxEvent → List OutboxEvent
where_due max_retries [] = []
where_due max_retries (r ∷ rs) =
    if is_due max_retries r then r ∷ where_due max_retries rs else where_due max_retries rs

-- `LIMIT n`
unfoldable pub limit : ℕ → List OutboxEvent → List OutboxEvent
limit zero rs = []
limit (suc n) [] = []
limit (suc n) (r ∷ rs) = r ∷ limit n rs

unfoldable pub fetch_pending_events :
    (max_retries batch_size : ℕ) → List OutboxEvent → List OutboxEvent
unfolding where_due order_by_time limit
fetch_pending_events max_retries batch_size rs =
    limit batch_size (order_by_time (where_due max_retries rs))

-- The row after `markPublished`.
abbrev pub set_published : OutboxEvent → OutboxEvent
set_published r = record r { status = published }

-- `markPublished`; its error is only logged by the caller.
unfoldable pub mark_published : Bool → String → List OutboxEvent → List OutboxEvent
unfolding update
mark_published saved id rs = if saved then update id set_published rs else rs

-- The row after `markFailed`, by the count that was fetched.
abbrev pub set_failed : ℕ → ℕ → String → OutboxEvent → OutboxEvent
set_failed max_retries new_count message r =
    if sle max_retries new_count
    then record r { status = failed; retry_count = new_count; last_error = message }
    else record r { retry_count = new_count; last_error = message }

-- Does `markFailed` sleep before it updates the row?
abbrev pub backs_off : ℕ → ℕ → Bool
backs_off max_retries count = not (sle max_retries (inc count)) && sle 3 count

-- `markFailed`; the second result tells whether it returned an error.
unfoldable pub mark_failed :
    ℕ → OutboxEvent → String → Answer → List OutboxEvent → List OutboxEvent × Bool
unfolding update
mark_failed max_retries event message a rs =
    if backs_off max_retries event.retry_count && a.cancelled
    then (rs, true)
    else if a.saved
    then (update event.id (set_failed max_retries (inc event.retry_count) message) rs, false)
    else (rs, true)

unfoldable pub process_event : ℕ → Answer → OutboxEvent → List OutboxEvent → List OutboxEvent × Bool
unfolding mark_failed mark_published
process_event max_retries a event rs = elim a.forward_error [
  | some message ↦ mark_failed max_retries event message a rs
  | none ↦ (mark_published a.saved event.id rs, false)
]

-- The loop of `pollAndForward` over the fetched events; the answers are those for each identifier.
unfoldable pub process_events :
    ℕ → (String → Answer) → List OutboxEvent → List OutboxEvent → List OutboxEvent × Bool
unfolding process_event
process_events max_retries answers [] rs = (rs, false)
process_events max_retries answers (e ∷ es) rs =
    let (rs', wrong) = process_event max_retries (answers e.id) e rs in
    let (last, wrong') = process_events max_retries answers es rs' in (last, wrong || wrong')

-- `pollAndForward` once the query has succeeded.
unfoldable pub forward_pending :
    (max_retries batch_size : ℕ) → (String → Answer) → List OutboxEvent → List OutboxEvent × Bool
unfolding fetch_pending_events process_events
forward_pending max_retries batch_size answers rs =
    process_events max_retries answers (fetch_pending_events max_retries batch_size rs) rs

-- `pollAndForward`; without answers the query fails, and so does the cycle.
unfoldable pub poll_and_forward :
    (max_retries batch_size : ℕ)
    → Option (String → Answer)
    → List OutboxEvent
    → List OutboxEvent × Bool
unfolding forward_pending
poll_and_forward max_retries batch_size none rs = (rs, true)
poll_and_forward max_retries batch_size (some answers) rs =
    forward_pending max_retries batch_size answers rs

unfoldable pub query_pending_count : List OutboxEvent → ℕ
query_pending_count [] = 0
query_pending_count (r ∷ rs) = (if is_pending r.status then 1 else 0) + query_pending_count rs

unfoldable pub query_failed_count : List OutboxEvent → ℕ
query_failed_count [] = 0
query_failed_count (r ∷ rs) = (if is_failed r.status then 1 else 0) + query_failed_count rs

-- The rows that `PurgePublished` leaves.
unfoldable pub purge_published : ℕ → List OutboxEvent → List OutboxEvent
purge_published older_than [] = []
purge_published older_than (r ∷ rs) =
    if is_published r.status && sle r.created_at older_than
    then purge_published older_than rs
    else r ∷ purge_published older_than rs
