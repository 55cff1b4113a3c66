-- ===== src/Decompose.antt =====
-- internal/orchestrator/decompose.go: a task is taken apart into subtasks, which get dependencies,
-- priorities and an order of execution.
pub mod Counting
pub mod Order
pub mod Dependencies
pub mod Priorities
pub mod Goal
pub mod Decomposer
pub mod Saving
mod Examples
