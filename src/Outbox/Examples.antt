-- ===== src/Outbox/Examples.antt =====
-- The theorems of the outbox at concrete tables.
use Prim.Native.Nat.{min}
use cloud_agent_platform.Base.{
  ℕ, Option, none, ◌≡◌, ◌≢◌, ◌⊎◌, refl, String, true, false, some, List, [], ◌∷◌, arith, IsDistinct,
  if◌then◌else◌, ltb, contains, string_comparable,
}
use cloud_agent_platform.Lifecycle.Entity.{DomainEvent}
use cloud_agent_platform.Outbox.Poller.{
  OutboxEvent, EventStatus, Answer, pending, published, failed, fetch_pending_events,
}
use cloud_agent_platform.Outbox.Rows.{find_row, ids}
use cloud_agent_platform.Outbox.Retries.{attempts, accepted}
use cloud_agent_platform.Outbox.Cycles.{cycles, answers_for, cycles_lem}
use cloud_agent_platform.Outbox.Writer.{Defaults, write, transaction, inserted}
use cloud_agent_platform.Outbox.Fates.{forwarded_row, cycles-all_refused, write-cycles}

abbrev row : String → EventStatus → ℕ → ℕ → OutboxEvent
row id status retry_count created_at = record {
  id = id;
  aggregate_type = "Task";
  aggregate_id = "t1";
  event_type = "TaskCreatedV1";
  payload = "";
  occurred_at = 0;
  idempotency_key = id;
  status = status;
  retry_count = retry_count;
  last_error = "";
  created_at = created_at;
}

abbrev table : List OutboxEvent
table = row "e1" pending 4 30 ∷ row "e2" published 0 10 ∷ row "e3" pending 0 20 ∷ []

table-IsDistinct : IsDistinct (ids table)
unfolding ids contains
table-IsDistinct = (refl, (refl, (refl, tt)))

-- The broker refuses everything.
abbrev refusing : Option (String → Answer)
refusing = some λ _. record { forward_error = some "down"; cancelled = false; saved = true }

abbrev forwarding : Option (String → Answer)
forwarding = some λ _. accepted

-- A refusal, a cycle whose query fails, and a success.
abbrev three_cycles : List (Option (String → Answer))
three_cycles = refusing ∷ none ∷ forwarding ∷ []

e1_there : find_row "e1" table ≡ some (row "e1" pending 4 30)
unfolding find_row
e1_there = refl

cycles_lem_example :
    find_row "e1" (cycles 5 10 three_cycles table)
    ≡ some (attempts 5 (answers_for "e1" three_cycles) (row "e1" pending 4 30))
cycles_lem_example =
    cycles_lem "e1" 5 10 three_cycles table (row "e1" pending 4 30) table-IsDistinct (omega arith)
      e1_there

-- The last try of an event.
cycles-all_refused_example :
    (r' : OutboxEvent) × (find_row "e1" (cycles 5 10 (refusing ∷ none ∷ []) table) ≡ some r')
    × (r'.retry_count ≡ min 5 5)
    × (r'.status ≡ (if ltb 5 5 then pending else failed))
cycles-all_refused_example =
    cycles-all_refused 5 10 (refusing ∷ none ∷ []) table ("down" ∷ []) "e1" (row "e1" pending 4 30)
      table-IsDistinct (omega arith) e1_there (omega arith) refl (omega arith) refl

abbrev created : DomainEvent
created = record {
  event_id = "e4";
  aggregate_type = "Task";
  aggregate_id = "t1";
  event_type = "TaskCreatedV1";
  payload = "";
  occurred_at = 40;
  idempotency_key = "t1:TaskCreatedV1:1";
  version = 1;
}

abbrev columns : Defaults
columns = record { retry_count = 0; last_error = ""; created_at = 40 }

e4_new : contains "e4" (ids table) ≡ false
unfolding contains ids
e4_new = refl

write-cycles_example :
    (((write transaction inserted columns (some created) table).0 ≡ table)
      × ((transaction ≡ transaction) → inserted ≢ inserted))
    ⊎ (((write transaction inserted columns (some created) table).1 ≡ none)
        × (find_row "e4"
              (cycles 5 10 three_cycles (write transaction inserted columns (some created) table).0)
            ≡ some (forwarded_row 5 10 three_cycles table columns ("down" ∷ []) created)))
write-cycles_example =
    write-cycles 5 10 three_cycles table transaction inserted columns ("down" ∷ []) [] created
      table-IsDistinct e4_new (omega arith) (omega arith) (omega arith) refl

-- With `MaxRetries` 0, which `Validate` accepts, nothing is ever fetched.
zero_retries : fetch_pending_events 0 100 table ≡ []
unfolding fetch_pending_events
zero_retries = refl
