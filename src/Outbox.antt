-- ===== src/Outbox.antt =====
-- internal/infra/outbox: the table of domain events that wait to be forwarded, and its poller.
-- The table is a list of rows. `Backoff` and `Config` are outbox.go, `Poller` is poller.go and the
-- insert of writer.go. The broker, the database and the context are arguments by what they answer.
pub mod Config
pub mod Backoff
pub mod Poller
pub mod Rows
pub mod Fetched
pub mod Cycle
pub mod Retries
pub mod Room
pub mod Cycles
pub mod Writer
pub mod Fates
mod Examples
