-- ===== src/Outbox/Fates.antt =====
-- Where an event ends: from its row in the table, or from the write, to the last cycle.
use Prim.Native.Nat.{min}
use mathlib.Core.Path.{subst}
use cloud_agent_platform.Base.{
  ℕ, ◌+◌, ◌<◌, ◌≤◌, ◌≡◌, ◌≢◌, ◌⊎◌, inl, inr, refl, sym, ap, ◌∙◌, String, false, Option, none, some,
  List, [], ◌∷◌, ◌++◌, arith, string_comparable, contains, IsDistinct, IsDistinct-snoc, length,
  length-append, if◌then◌else◌, ltb,
}
use cloud_agent_platform.Base.Int64.{IsNonneg}
use cloud_agent_platform.Lifecycle.Entity.{DomainEvent}
use cloud_agent_platform.Outbox.Poller.{OutboxEvent, Answer, pending, published, failed}
use cloud_agent_platform.Outbox.Rows.{find_row, ids}
use cloud_agent_platform.Outbox.Retries.{
  attempts, all_refused, accepted, last_message, attempts_refused, attempts-accepted,
}
use cloud_agent_platform.Outbox.Cycles.{cycles, answers_for, cycles_lem}
use cloud_agent_platform.Outbox.Writer.{
  TxArgument, transaction, nil_transaction, other_type, Inserted, inserted, constraint_violated,
  insert_failed, Defaults, new_row, write, ids-append, find_row-append,
}

module _ (max_retries batch_size : ℕ) (all_answers : List (Option (String → Answer)))
    (rs : List OutboxEvent) where
  -- A pending event below a limit that is not negative, which the broker refuses in every cycle while
  -- the database saves each result, is pending in the table after fewer tries than the limit leaves,
  -- and failed after more; its retry count rises with each try, up to the limit. The identifiers of
  -- the table differ, and it fits into a batch.
  pub cycles-all_refused :
      (ms : List String) (id : String) (r : OutboxEvent)
      → IsDistinct (ids rs)
      → length rs ≤ batch_size
      → find_row id rs ≡ some r
      → IsNonneg max_retries
      → r.status ≡ pending
      → r.retry_count < max_retries
      → answers_for id all_answers ≡ all_refused ms
      → (r' : OutboxEvent) × (find_row id (cycles max_retries batch_size all_answers rs) ≡ some r')
        × (r'.retry_count ≡ min (r.retry_count + length ms) max_retries)
        × (r'.status ≡ (if ltb (r.retry_count + length ms) max_retries then pending else failed))
  cycles-all_refused ms id r d k h n p l a =
      let (count, status) = attempts_refused max_retries ms r n p l in
      (
        attempts max_retries (all_refused ms) r,
        cycles_lem id max_retries batch_size all_answers rs r d k h
            ∙ ap (λ answers. some (attempts max_retries answers r)) a,
        count,
        status,
      )

  -- The row of an event that was refused with the messages ms and then accepted.
  abbrev pub forwarded_row : Defaults → List String → DomainEvent → OutboxEvent
  forwarded_row defaults ms e = record {
    id = e.event_id;
    aggregate_type = e.aggregate_type;
    aggregate_id = e.aggregate_id;
    event_type = e.event_type;
    payload = e.payload;
    occurred_at = e.occurred_at;
    idempotency_key = e.idempotency_key;
    status = published;
    retry_count = defaults.retry_count + length ms;
    last_error = last_message ms defaults.last_error;
    created_at = defaults.created_at;
  }

  cycles-inserted :
      (defaults : Defaults) (ms : List String) (later : List Answer) (e : DomainEvent)
      → IsDistinct (ids rs)
      → contains e.event_id (ids rs) ≡ false
      → length rs + 1 ≤ batch_size
      → IsNonneg max_retries
      → defaults.retry_count + length ms < max_retries
      → answers_for e.event_id all_answers ≡ all_refused ms ++ accepted ∷ later
      → find_row e.event_id
          (cycles max_retries batch_size all_answers (rs ++ new_row defaults e ∷ []))
        ≡ some (forwarded_row defaults ms e)
  cycles-inserted defaults ms later e d fresh k n l a =
      let r = new_row defaults e in
      cycles_lem e.event_id max_retries batch_size all_answers (rs ++ r ∷ []) r
        (subst (λ xs. IsDistinct xs) (sym (ids-append rs r))
          (IsDistinct-snoc (ids rs) e.event_id d fresh))
        (omega (arith, length-append rs (r ∷ []))) (find_row-append rs r fresh)
      ∙ ap (λ answers. some (attempts max_retries answers r)) a
      ∙ ap some (attempts-accepted max_retries ms later r n refl l)

  -- Write of an event with a new identifier, whatever it is given as a transaction and whatever the
  -- database answers: either it changes nothing, and then there was no transaction or the database did
  -- not insert; or it reports no error, and the event is published in the table, with its fields, after
  -- any cycles in which the broker accepts it before the retries are used up. The identifiers of the
  -- table differ, the limit is not negative, and the table and the event fit into a batch.
  pub write-cycles :
      (tx : TxArgument) (answer : Inserted) (defaults : Defaults) (ms : List String)
      (later : List Answer) (e : DomainEvent)
      → IsDistinct (ids rs)
      → contains e.event_id (ids rs) ≡ false
      → length rs + 1 ≤ batch_size
      → IsNonneg max_retries
      → defaults.retry_count + length ms < max_retries
      → answers_for e.event_id all_answers ≡ all_refused ms ++ accepted ∷ later
      → (((write tx answer defaults (some e) rs).0 ≡ rs) × ((tx ≡ transaction) → answer ≢ inserted))
        ⊎ (((write tx answer defaults (some e) rs).1 ≡ none)
            × (find_row e.event_id (
                  cycles max_retries batch_size all_answers
                    (write tx answer defaults (some e) rs).0)
                ≡ some (forwarded_row defaults ms e)))
  unfolding write
  write-cycles other_type answer defaults ms later e d fresh k n l a = inl (refl, λ h g. cc)
  write-cycles nil_transaction answer defaults ms later e d fresh k n l a = inl (refl, λ h g. cc)
  write-cycles transaction inserted defaults ms later e d fresh k n l a =
      inr (refl, cycles-inserted defaults ms later e d fresh k n l a)
  write-cycles transaction constraint_violated defaults ms later e d fresh k n l a =
      inl (refl, λ h g. cc)
  write-cycles transaction insert_failed defaults ms later e d fresh k n l a = inl (refl, λ h g. cc)
