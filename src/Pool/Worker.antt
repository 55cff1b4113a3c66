-- ===== src/Pool/Worker.antt =====
-- internal/worker/pool/worker.go. Every method holds the worker's own mutex.
use cloud_agent_platform.Base.{ℕ, String, Bool, true, false, Option, none, some}

pub data WorkerStatus : Type 0 where
  idle busy starting stopping unhealthy : WorkerStatus

abbrev pub is_idle : WorkerStatus → Bool
is_idle idle = true
is_idle _ = false

abbrev pub is_busy : WorkerStatus → Bool
is_busy busy = true
is_busy _ = false

abbrev pub is_stopping : WorkerStatus → Bool
is_stopping stopping = true
is_stopping _ = false

-- `task_context` is the context of the last task, and whether it was cancelled.
pub record Worker : Type 0 where
  pub id : String
  pub status : WorkerStatus
  pub created_at : ℕ
  pub last_used : ℕ
  pub task_context : Option Bool

unfoldable pub new_worker : String → ℕ → Worker
new_worker id now = record {
  id = id;
  status = starting;
  created_at = now;
  last_used = now;
  task_context = none;
}

unfoldable pub set_status : WorkerStatus → Worker → Worker
set_status status w = record w { status = status }

unfoldable pub update_last_used : ℕ → Worker → Worker
update_last_used now w = record w { last_used = now }

unfoldable pub is_available : Worker → Bool
is_available w = is_idle w.status

unfoldable pub is_draining : Worker → Bool
is_draining w = is_stopping w.status

abbrev pub cancel : Option Bool → Option Bool
cancel none = none
cancel (some _) = some true

unfoldable pub stop : Worker → Worker
stop w = record w { status = stopping; task_context = cancel w.task_context }

abbrev pub refuses : WorkerStatus → Bool
refuses stopping = true
refuses unhealthy = true
refuses _ = false

-- `Execute` up to the call of the sandbox: `none` is `ErrWorkerNotAvailable`.
unfoldable pub begin_execute : ℕ → Worker → Option Worker
begin_execute now w = elim (refuses w.status) [
  | true ↦ none
  | false ↦ some record w { status = busy; task_context = some false; last_used = now }
]

-- The deferred function of `Execute`.
unfoldable pub end_execute : Worker → Worker
end_execute w = record w { status = idle; task_context = cancel w.task_context }
