-- ===== src/Outbox/Cycle.antt =====
-- A whole cycle of the poller on a table with different identifiers.
use cloud_agent_platform.Base.{
  ℕ, ◌≡◌, String, true, some, List, string_comparable, All-map, IsDistinct,
}
use cloud_agent_platform.Outbox.Poller.{
  OutboxEvent, Answer, is_due, fetch_pending_events, forward_pending,
}
use cloud_agent_platform.Outbox.Rows.{find_row, ids, settled, process_events_lem}
use cloud_agent_platform.Outbox.Fetched.{fetch-IsDistinct, fetch-All}

-- After a cycle whose query succeeds each row that was fetched is what the answers for its event make
-- of it, computed from the row as it was, and every other row is as it was, if the identifiers of the
-- table differ.
pub forward_pending_lem :
    (id : String) (max_retries batch_size : ℕ) (answers : String → Answer) (rs : List OutboxEvent)
    → IsDistinct (ids rs)
    → find_row id (forward_pending max_retries batch_size answers rs).0
      ≡ settled max_retries answers id rs
          (find_row id (fetch_pending_events max_retries batch_size rs))
unfolding forward_pending
forward_pending_lem id m n answers rs d =
    let fetched = fetch_pending_events m n rs in
    process_events_lem id m answers fetched rs (fetch-IsDistinct m n rs d) (
      All-map (λ e. (find_row e.id rs ≡ some e) × (is_due m e ≡ true))
        (λ e. find_row e.id rs ≡ some e) fetched (λ e h. h.0) (fetch-All m n rs d))
