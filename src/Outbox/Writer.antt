-- ===== src/Outbox/Writer.antt =====
-- internal/infra/outbox/writer.go: the insert of an event, in the caller's transaction.
use cloud_agent_platform.Base.{
  ℕ, ◌≡◌, refl, ap, String, false, Option, none, some, List, [], ◌∷◌, ◌++◌, arith,
  string_comparable, same_self, contains,
}
use cloud_agent_platform.Lifecycle.Entity.{DomainEvent}
use cloud_agent_platform.Outbox.Poller.{OutboxEvent, pending}
use cloud_agent_platform.Outbox.Rows.{find_row, ids}

-- The argument `tx`, by its dynamic type.
pub data TxArgument : Type 0 where
  transaction nil_transaction other_type : TxArgument

-- What the database answers to the insert.
pub data Inserted : Type 0 where
  inserted constraint_violated insert_failed : Inserted

pub data WriteError : Type 0 where
  event_is_nil wrong_tx_type transaction_is_nil write_failed : WriteError

-- The columns that the insert leaves to the table.
pub record Defaults : Type 0 where
  pub retry_count : ℕ
  pub last_error : String
  pub created_at : ℕ

-- The row of a new event.
abbrev pub new_row : Defaults → DomainEvent → OutboxEvent
new_row defaults e = record {
  id = e.event_id;
  aggregate_type = e.aggregate_type;
  aggregate_id = e.aggregate_id;
  event_type = e.event_type;
  payload = e.payload;
  occurred_at = e.occurred_at;
  idempotency_key = e.idempotency_key;
  status = pending;
  retry_count = defaults.retry_count;
  last_error = defaults.last_error;
  created_at = defaults.created_at;
}

unfoldable pub write :
    TxArgument
    → Inserted
    → Defaults
    → Option DomainEvent
    → List OutboxEvent
    → List OutboxEvent × Option WriteError
write tx answer defaults none rs = (rs, some event_is_nil)
write other_type answer defaults (some e) rs = (rs, some wrong_tx_type)
write nil_transaction answer defaults (some e) rs = (rs, some transaction_is_nil)
write transaction inserted defaults (some e) rs = (rs ++ new_row defaults e ∷ [], none)
write transaction constraint_violated defaults (some e) rs = (rs, none)
write transaction insert_failed defaults (some e) rs = (rs, some write_failed)

pub ids-append :
    (rs : List OutboxEvent) (r : OutboxEvent) → ids (rs ++ r ∷ []) ≡ ids rs ++ r.id ∷ []
unfolding ids
ids-append [] r = refl
ids-append (x ∷ rs) r = ap (λ xs. x.id ∷ xs) (ids-append rs r)

pub find_row-append :
    (rs : List OutboxEvent) (r : OutboxEvent)
    → contains r.id (ids rs) ≡ false
    → find_row r.id (rs ++ r ∷ []) ≡ some r
unfolding find_row ids contains
find_row-append [] r h = rw (same_self r.id) refl
find_row-append (x ∷ rs) r h = ground (arith, find_row-append rs r)
