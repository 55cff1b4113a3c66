-- ===== src/Outbox/Cycles.antt =====
-- Cycle after cycle of the poller, with room for the whole table in a batch: every event goes its
-- own way.
use mathlib.Core.Path.{subst}
use cloud_agent_platform.Base.{
  ℕ, ◌≤◌, ◌≡◌, refl, sym, ap, ◌∙◌, inl, inr, String, Option, none, some, List, [], ◌∷◌, arith,
  string_comparable, if◌then◌else◌, IsDistinct, Bool-cases, Option-cases, length,
}
use cloud_agent_platform.Base.Int64.{inc}
use cloud_agent_platform.Outbox.Poller.{
  OutboxEvent, Answer, is_due, update, set_published, set_failed, mark_published, mark_failed,
  process_event, process_events, fetch_pending_events, forward_pending, poll_and_forward,
}
use cloud_agent_platform.Outbox.Rows.{find_row, ids, settled, set_failed-id}
use cloud_agent_platform.Outbox.Cycle.{forward_pending_lem}
use cloud_agent_platform.Outbox.Room.{find_row-fetch, length-ids}
use cloud_agent_platform.Outbox.Retries.{attempt, attempts}

settled-attempt :
    (id : String) (m : ℕ) (answers : String → Answer) (rs : List OutboxEvent) (r : OutboxEvent)
    → find_row id rs ≡ some r
    → settled m answers id rs (if is_due m r then some r else none)
      ≡ some (attempt m (answers id) r)
settled-attempt id m answers rs r h = elim (Bool-cases (is_due m r)) [
  | inl e ↦ rw e refl
  | inr e ↦ rw e h
]

-- In one cycle with room for all, every event of the table is attempted, if it is due.
forward_pending-attempt :
    (id : String) (m n : ℕ) (answers : String → Answer) (rs : List OutboxEvent) (r : OutboxEvent)
    → IsDistinct (ids rs)
    → length rs ≤ n
    → find_row id rs ≡ some r
    → find_row id (forward_pending m n answers rs).0 ≡ some (attempt m (answers id) r)
forward_pending-attempt id m n answers rs r d k h =
    forward_pending_lem id m n answers rs d
    ∙ ap (settled m answers id rs) (find_row-fetch id m n rs r d k h)
    ∙ settled-attempt id m answers rs r h

ids-update :
    (key : String) (f : OutboxEvent → OutboxEvent) (rs : List OutboxEvent)
    → ((r : OutboxEvent) → (f r).id ≡ r.id)
    → ids (update key f rs) ≡ ids rs
unfolding ids update
ids-update key f [] k = refl
ids-update key f (r ∷ rs) k = ground (arith, k r, ids-update key f rs k)

ids-process_event :
    (m : ℕ) (a : Answer) (e : OutboxEvent) (rs : List OutboxEvent)
    → ids (process_event m a e rs).0 ≡ ids rs
unfolding process_event mark_failed mark_published
ids-process_event m a e rs = elim (Option-cases a.forward_error) [
  | inl g ↦ rw (g, process_event) (ground (arith, ids-update e.id set_published rs (λ r. refl)))
  | inr (message, g) ↦
      let f = set_failed m (inc e.retry_count) message in
      rw (g, process_event)
        (ground (arith, ids-update e.id f rs (set_failed-id m (inc e.retry_count) message)))
]

ids-process_events :
    (m : ℕ) (answers : String → Answer) (es rs : List OutboxEvent)
    → ids (process_events m answers es rs).0 ≡ ids rs
unfolding process_events
ids-process_events m answers [] rs = refl
ids-process_events m answers (e ∷ es) rs =
    ids-process_events m answers es (process_event m (answers e.id) e rs).0
    ∙ ids-process_event m (answers e.id) e rs

ids-forward_pending :
    (m n : ℕ) (answers : String → Answer) (rs : List OutboxEvent)
    → ids (forward_pending m n answers rs).0 ≡ ids rs
unfolding forward_pending
ids-forward_pending m n answers rs = ids-process_events m answers (fetch_pending_events m n rs) rs

length-forward_pending :
    (m n : ℕ) (answers : String → Answer) (rs : List OutboxEvent)
    → length (forward_pending m n answers rs).0 ≡ length rs
length-forward_pending m n answers rs =
    sym (length-ids (forward_pending m n answers rs).0)
    ∙ ap length (ids-forward_pending m n answers rs)
    ∙ length-ids rs

-- The cycles, each with its answers, or with a query that fails.
unfoldable pub cycles :
    (max_retries batch_size : ℕ)
    → List (Option (String → Answer))
    → List OutboxEvent
    → List OutboxEvent
cycles m n [] rs = rs
cycles m n (answers ∷ more) rs = cycles m n more (poll_and_forward m n answers rs).0

-- The answers for one event, in the cycles whose query succeeds.
abbrev pub answers_for : String → List (Option (String → Answer)) → List Answer
answers_for id [] = []
answers_for id (none ∷ more) = answers_for id more
answers_for id (some answers ∷ more) = answers id ∷ answers_for id more

-- Over any number of cycles, on a table with different identifiers that fits into a batch, every
-- event ends as its own answers make it, whatever becomes of the others; a cycle whose query fails
-- leaves it.
pub cycles_lem :
    (id : String) (max_retries batch_size : ℕ) (all_answers : List (Option (String → Answer)))
    (rs : List OutboxEvent) (r : OutboxEvent)
    → IsDistinct (ids rs)
    → length rs ≤ batch_size
    → find_row id rs ≡ some r
    → find_row id (cycles max_retries batch_size all_answers rs)
      ≡ some (attempts max_retries (answers_for id all_answers) r)
unfolding cycles attempts poll_and_forward
cycles_lem id m n [] rs r d k h = h
cycles_lem id m n (none ∷ more) rs r d k h = cycles_lem id m n more rs r d k h
cycles_lem id m n (some answers ∷ more) rs r d k h =
    let rs' = (forward_pending m n answers rs).0 in
    cycles_lem id m n more rs' (attempt m (answers id) r)
      (subst (λ xs. IsDistinct xs) (sym (ids-forward_pending m n answers rs)) d)
      (omega (arith, length-forward_pending m n answers rs))
      (forward_pending-attempt id m n answers rs r d k h)
