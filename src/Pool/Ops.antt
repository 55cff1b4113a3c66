-- ===== src/Pool/Ops.antt =====
-- The state of the pool, and its operations on single workers.
use cloud_agent_platform.Base.{
  ℕ, ◌+◌, ◌%◌, ◌⊎◌, inl, inr, String, Bool, true, false, not, Option, none, some, List, [], ◌∷◌,
  length, ◌==◌, string_comparable, if◌then◌else◌,
}
use cloud_agent_platform.Base.Int64.{sle, modulus}
use cloud_agent_platform.Pool.Config.{Config, ConfigError, validate}
use cloud_agent_platform.Pool.Worker.{
  Worker, idle, busy, new_worker, set_status, is_available, begin_execute, end_execute, is_busy,
}

pub data PoolError : Type 0 where
  already_running not_running exhausted worker_not_found create_failed worker_not_available
        exec_failed :
      PoolError

pub record Pool : Type 0 where
  pub cfg : Config
  pub workers : List Worker
  pub pending_tasks : ℕ  -- int64
  pub running : Bool
  pub done_closed : Bool

abbrev pub Outcome : Type 0
Outcome = Option PoolError

abbrev pub empty_pool : Config → Pool
empty_pool cfg = record {
  cfg = cfg;
  workers = [];
  pending_tasks = 0;
  running = false;
  done_closed = false;
}

unfoldable pub new_pool : Config → ConfigError ⊎ Pool
unfolding validate
new_pool cfg = elim (validate cfg) [ some err ↦ inl err | none ↦ inr (empty_pool cfg) ]

-- `Stop`, the waiting left out: `none` is the panic of a second `close(p.done)`. The map of workers
-- stays as it is; their sandboxes are destroyed.
unfoldable pub stop_pool : Pool → Option Pool
stop_pool p =
    if not p.running
    then some p
    else if p.done_closed
    then none
    else some record p { running = false; done_closed = true }

-- `p.workers[w.ID()] = w`
unfoldable pub put : Worker → List Worker → List Worker
put w [] = w ∷ []
put w (v ∷ vs) = if v.id == w.id then w ∷ vs else v ∷ put w vs

unfoldable pub get_worker : String → List Worker → Option Worker
get_worker id [] = none
get_worker id (v ∷ vs) = if v.id == id then some v else get_worker id vs

-- `delete(p.workers, id)`
unfoldable pub delete : String → List Worker → List Worker
delete id [] = []
delete id (v ∷ vs) = if v.id == id then vs else v ∷ delete id vs

-- A write through the pointer to the worker `id`.
unfoldable pub modify : String → (Worker → Worker) → List Worker → List Worker
modify id f [] = []
modify id f (v ∷ vs) = if v.id == id then f v ∷ vs else v ∷ modify id f vs

-- `createWorker`, by what the sandbox answered.
unfoldable pub create_worker : Option String → ℕ → Option Worker
unfolding new_worker set_status
create_worker none now = none
create_worker (some id) now = some (set_status idle (new_worker id now))

unfoldable pub find_available : List Worker → Option String
unfolding is_available
find_available [] = none
find_available (w ∷ ws) = if is_available w then some w.id else find_available ws

-- `Acquire` returns the worker by its identifier.
unfoldable pub acquire : Option String → ℕ → Pool → Pool × Option String × Outcome
unfolding find_available create_worker set_status put modify
acquire created now p =
    if not p.running then (p, none, some not_running) else elim (find_available p.workers) [
      | some id ↦ (record p { workers = modify id (set_status busy) p.workers }, some id, none)
      | none ↦
          if sle p.cfg.max_workers (length p.workers)
          then (p, none, some exhausted)
          else elim (create_worker created now) [
            | none ↦ (p, none, some create_failed)
            | some w ↦ (record p { workers = put (set_status busy w) p.workers }, some w.id, none)
          ]
    ]

unfoldable pub release : String → Pool → Pool
unfolding modify set_status
release id p = record p { workers = modify id (set_status idle) p.workers }

unfoldable pub destroy_worker : String → Pool → Pool × Outcome
unfolding get_worker delete
destroy_worker id p = elim (get_worker id p.workers) [
  | none ↦ (p, some worker_not_found)
  | some w ↦ (record p { workers = delete id p.workers }, none)
]

-- `worker.Execute` on a worker that the pool holds; `answer` is the sandbox's: true is success.
unfoldable pub execute : String → Bool → ℕ → Pool → Pool × Outcome
unfolding get_worker modify begin_execute end_execute
execute id answer now p = elim (get_worker id p.workers) [
  | none ↦ (p, some worker_not_available)
  | some w ↦ elim (begin_execute now w) [
    | none ↦ (p, some worker_not_available)
    | some w' ↦ (
      record p { workers = modify id (λ _. end_execute w') p.workers },
      if answer then none else some exec_failed,
    )
  ]
]

abbrev pub add_pending : ℕ → Pool → Pool
add_pending n p = record p { pending_tasks = (p.pending_tasks + n) % modulus }

-- The first and the last step of `SubmitTask`, which change the count of pending tasks.
abbrev pub begin_submission : Pool → Pool
begin_submission p = add_pending 1 p

abbrev pub end_submission : Pool → Pool
end_submission p = add_pending 18446744073709551615 p

-- `SubmitTask` after `Acquire`.
unfoldable pub submit_acquired : String → Bool → ℕ → Pool → Pool × Outcome
unfolding execute destroy_worker
submit_acquired id answer now p =
    let (p', failure) = execute id answer now p in
    elim failure [ none ↦ (p', none) | some err ↦ ((destroy_worker id p').0, some err) ]

-- `SubmitTask` from the result of `Acquire` on, with the deferred decrement.
unfoldable pub finish_submission : Bool → ℕ → Pool × Option String × Outcome → Pool × Outcome
unfolding submit_acquired
finish_submission answer now (p, none, failure) = (end_submission p, failure)
finish_submission answer now (p, some id, failure) =
    let (p', result) = submit_acquired id answer now p in (end_submission p', result)

-- `SubmitTask` with no step of another call between its own, which hold no lock together.
unfoldable pub submit_task : Option String → Bool → ℕ → Pool → Pool × Outcome
unfolding acquire finish_submission
submit_task created answer now p =
    finish_submission answer now (acquire created now (begin_submission p))

unfoldable pub available_worker_count : List Worker → ℕ
unfolding is_available
available_worker_count [] = 0
available_worker_count (w ∷ ws) = (if is_available w then 1 else 0) + available_worker_count ws

unfoldable pub busy_worker_count : List Worker → ℕ
unfolding is_available
busy_worker_count [] = 0
busy_worker_count (w ∷ ws) =
    (if is_available w then 0 else if is_busy w.status then 1 else 0) + busy_worker_count ws

pub record PoolStats : Type 0 where
  pub total_workers : ℕ
  pub available_workers : ℕ
  pub busy_workers : ℕ
  pub pending_tasks : ℕ

unfoldable pub stats : Pool → PoolStats
unfolding available_worker_count busy_worker_count
stats p = record {
  total_workers = length p.workers;
  available_workers = available_worker_count p.workers;
  busy_workers = busy_worker_count p.workers;
  pending_tasks = p.pending_tasks;
}
