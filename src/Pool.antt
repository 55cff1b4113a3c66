-- ===== src/Pool.antt =====
-- internal/worker/pool/pool.go: the pool of workers. `Config` is config.go, `Worker` is worker.go.
-- `p.workers` is a list of workers, each under its own identifier; a loop over the map goes through
-- the list, and since the lists are arbitrary, so is the order. The sandbox is not part of the pool:
-- what `Create` returns is an argument, an identifier or `none` for an error, and so are the answers
-- of `Status` and `Exec`. A method is one step; `scale` takes the counts that it read before it took
-- the write lock, `Bounds` has the steps of submissions, and `Race` the interleavings of `Acquire`.
pub mod Config
pub mod Worker
pub mod Ops
pub mod Loops
pub mod Lookup
pub mod Size
pub mod Bounds
pub mod Submit
pub mod Cleanup
pub mod Race
pub mod Limits
mod Examples
