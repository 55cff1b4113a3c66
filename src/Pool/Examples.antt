-- ===== src/Pool/Examples.antt =====
-- The theorems of the pool at concrete pools.
use cloud_agent_platform.Base.{
  ℕ, ◌≤◌, ◌≡◌, refl, inr, String, true, false, none, some, List, [], ◌∷◌, arith, length, nat_beq,
  if◌then◌else◌,
}
use cloud_agent_platform.Pool.Config.{
  IsUsable, IsTyped, default_config, validate, validate-IsUsable,
}
use cloud_agent_platform.Pool.Worker.{
  Worker, WorkerStatus, idle, busy, set_status, is_available, stop, end_execute,
}
use cloud_agent_platform.Pool.Ops.{
  Pool, new_pool, empty_pool, get_worker, modify, stop_pool, acquire, submit_task, add_pending,
}
use cloud_agent_platform.Pool.Loops.{Answers, start, scale, cleanup}
use cloud_agent_platform.Pool.Bounds.{
  Op, do_acquire, do_destroy, do_begin, do_end, do_execute, do_scale, do_cleanup, run, Fits,
  run-Fits,
}
use cloud_agent_platform.Pool.Submit.{Submitted, submit_task_lem}
use cloud_agent_platform.Pool.Cleanup.{retained, cleanup_lem}
use cloud_agent_platform.Pool.Race.{looking, holding, ◌⟶*◌, both_hold}

default_valid : validate default_config ≡ none
unfolding validate
default_valid = refl

default-IsTyped : IsTyped default_config
default-IsTyped = record {
  min_typed = omega arith;
  max_typed = omega arith;
  up_typed = omega arith;
  down_typed = omega arith;
}

default-IsUsable : IsUsable default_config
default-IsUsable = validate-IsUsable default_config default-IsTyped default_valid

abbrev worker : String → WorkerStatus → Worker
worker id status = record {
  id = id;
  status = status;
  created_at = 0;
  last_used = 0;
  task_context = none;
}

-- Three workers, one of them busy.
abbrev three : Pool
three = record (empty_pool default_config) {
  workers = worker "a" idle ∷ worker "b" busy ∷ worker "c" idle ∷ [];
  running = true;
}

abbrev two : Pool
two = record three { workers = worker "a" idle ∷ worker "b" busy ∷ [] }

abbrev named : Answers
named _ = some "w"

-- A new worker for each attempt.
abbrev numbered : Answers
numbered i = some (if nat_beq i 0 then "n0" else if nat_beq i 1 then "n1" else "n2")

abbrev ops : List Op
ops =
    do_acquire (some "x") 1
    ∷ do_begin
    ∷ do_acquire (some "y") 2
    ∷ do_scale 10 3 numbered 3
    ∷ do_execute "y" false 4
    ∷ do_destroy "y"
    ∷ do_end
    ∷ do_cleanup 5
    ∷ []

default_pool : new_pool default_config ≡ inr (empty_pool default_config)
unfolding new_pool
default_pool = refl

run-Fits_example : Fits default_config (run ops (start named 0 (empty_pool default_config)).0)
run-Fits_example =
    run-Fits default_config (empty_pool default_config) named 0 ops default-IsTyped default_pool

submit_task_lem_example :
    Submitted false three (acquire none 5 (add_pending 1 three)) (submit_task none false 5 three)
    × ((submit_task none false 5 three).0.pending_tasks ≡ 0)
submit_task_lem_example = submit_task_lem none false 5 three (omega arith)

-- Scaling adds workers to a pool of two.
scaled_up : length (run (do_begin ∷ do_scale 10 2 numbered 3 ∷ []) two).workers ≡ 4
unfolding scale
scaled_up = refl

-- An hour later.
abbrev later : ℕ
later = 3_600_000_000_000

cleanup_lem_example :
    (2 ≤ length (cleanup later three).workers)
    × (retained default_config later (cleanup later three).workers
        ≡ retained default_config later three.workers)
cleanup_lem_example = cleanup_lem later three default-IsUsable (omega arith) (omega arith)

found_a : get_worker "a" three.workers ≡ some (worker "a" idle)
unfolding get_worker
found_a = refl

a_available : is_available (worker "a" idle) ≡ true
unfolding is_available
a_available = refl

both_hold_example :
    record { workers = three.workers; first = looking; second = looking } ⟶* record {
      workers = modify "a" (set_status busy) (modify "a" (set_status busy) three.workers);
      first = holding "a";
      second = holding "a";
    }
both_hold_example = both_hold three.workers "a" (worker "a" idle) found_a a_available

no_d : get_worker "d" three.workers ≡ none
unfolding get_worker
no_d = refl

abbrev stopped : Pool
stopped = record three { running = false; done_closed = true }

three_stops : stop_pool three ≡ some stopped
unfolding stop_pool
three_stops = refl

-- A worker that was told to stop while it ran a task is available again when the task returns.
stop_overridden : is_available (end_execute (stop (worker "b" busy))) ≡ true
unfolding is_available end_execute
stop_overridden = refl
