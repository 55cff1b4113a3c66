-- ===== src/Pool/Loops.antt =====
-- The operations of the pool's background loops: prewarming, scaling, health checks and cleanup.
-- The answers of `Create` are a function of the attempt.
use cloud_agent_platform.Base.{
  ℕ, zero, suc, ◌+◌, ◌%◌, String, Bool, true, not, ◌&&◌, Option, none, some, List, [], ◌∷◌, length,
  string_comparable, if◌then◌else◌,
}
use cloud_agent_platform.Base.Int64.{sle, slt, sub, modulus}
use cloud_agent_platform.Pool.Config.{Config}
use cloud_agent_platform.Pool.Worker.{Worker, is_available, is_busy}
use cloud_agent_platform.Pool.Ops.{Pool, already_running, Outcome, create_worker, put}

abbrev pub Answers : Type 0
Answers = ℕ → Option String

-- `p.workers[w.ID()] = w`, if the worker was created.
abbrev pub put_created : Option Worker → List Worker → List Worker
put_created none ws = ws
put_created (some w) ws = put w ws

-- The loop of `prewarm`, over the attempts that are left: a failed attempt is passed over.
unfoldable pub prewarm_from : ℕ → ℕ → Answers → ℕ → List Worker → List Worker
unfolding create_worker put
prewarm_from zero i created now ws = ws
prewarm_from (suc left) i created now ws =
    prewarm_from left (i + 1) created now (put_created (create_worker (created i) now) ws)

-- The rounds of a loop `for i := 0; i < n`, n an int.
abbrev pub rounds : ℕ → ℕ
rounds n = if slt 0 n then n else 0

unfoldable pub prewarm : Answers → ℕ → Pool → Pool
unfolding prewarm_from
prewarm created now p = record p {
  workers = prewarm_from (rounds p.cfg.min_workers) 0 created now p.workers;
}

unfoldable pub start : Answers → ℕ → Pool → Pool × Outcome
unfolding prewarm
start created now p =
    if p.running
    then (p, some already_running)
    else (prewarm created now (record p { running = true }), none)

-- The loop that scales up: it ends at the first failed attempt, and at the maximum.
unfoldable pub scale_up_from : ℕ → ℕ → ℕ → Answers → ℕ → List Worker → List Worker
unfolding create_worker put
scale_up_from zero max i created now ws = ws
scale_up_from (suc left) max i created now ws =
    let next : List Worker = elim (create_worker (created i) now) [
      | none ↦ ws
      | some w ↦ scale_up_from left max (i + 1) created now (put w ws)
    ] in
    if slt (length ws) max then next else ws

-- The loop that scales down, with the number of removals that are left (an int).
unfoldable pub scale_down_from : ℕ → List Worker → List Worker
unfolding is_available
scale_down_from zero ws = ws
scale_down_from (suc left) [] = []
scale_down_from (suc left) (w ∷ ws) =
    if is_available w then scale_down_from left ws else w ∷ scale_down_from (suc left) ws

abbrev pub at_most : ℕ → ℕ → ℕ
at_most limit n = if slt limit n then limit else n

abbrev pub at_least : ℕ → ℕ → ℕ
at_least limit n = if slt n limit then limit else n

-- `scale`, with the counts of pending tasks and of workers that it read before it took the write
-- lock.
unfoldable pub scale : (pending current : ℕ) → Answers → ℕ → Pool → Pool
unfolding scale_up_from scale_down_from
scale pending current created now p =
    let c = p.cfg in
    let higher = at_most c.max_workers ((current + c.scale_up_step) % modulus) in
    let lower = at_least c.min_workers (sub current c.scale_down_step) in
    if sle c.scale_up_threshold pending && slt current c.max_workers
    then record p {
      workers = scale_up_from (rounds (sub higher current)) c.max_workers 0 created now p.workers;
    }
    else if sle pending c.scale_down_threshold && slt c.min_workers current
    then record p { workers = scale_down_from (rounds (sub current lower)) p.workers }
    else p

-- `checkWorkerHealth`: `reachable` tells whether the sandbox's `Status` answered `running`.
unfoldable pub check_worker_health : Config → Bool → ℕ → Worker → Bool
check_worker_health c reachable now w =
    reachable && not (is_busy w.status && slt c.max_task_duration (sub now w.last_used))

-- One round of `checkHealth`: the replacement of an unhealthy worker, and the removal of the old
-- one, which runs later on its own.
unfoldable pub replace_unhealthy : Option String → ℕ → Pool → Pool
unfolding create_worker put
replace_unhealthy created now p = record p {
  workers = put_created (create_worker created now) p.workers;
}

-- The loop of `checkHealth` over the workers that it listed, each with the sandbox's answers; the
-- result has the identifiers whose removal was started.
unfoldable pub check_health : List (Worker × Bool × Option String) → ℕ → Pool → Pool × List String
unfolding check_worker_health replace_unhealthy create_worker
check_health [] now p = (p, [])
check_health ((w, reachable, created) ∷ ws) now p =
    let healthy = check_worker_health p.cfg reachable now w in
    let p' = if healthy then p else replace_unhealthy created now p in
    let (last, removed) = check_health ws now p' in
    (
      last,
      if healthy
          then removed
          else elim (create_worker created now) [ none ↦ removed | some v ↦ w.id ∷ removed ],
    )

abbrev pub is_expired : Config → ℕ → Worker → Bool
is_expired c now w = slt c.idle_worker_ttl (sub now w.last_used)

-- The loop of `cleanup` over the workers not yet visited, with the size of the map. After a worker
-- that is available the loop ends if the minimum is reached.
unfoldable pub cleanup_from : Config → ℕ → ℕ → List Worker → List Worker
unfolding is_available
cleanup_from c now size [] = []
cleanup_from c now size (w ∷ ws) =
    let size' = if is_expired c now w then sub size 1 else size in
    let rest = cleanup_from c now (if is_available w then size' else size) ws in
    let left = if sle size' c.min_workers then ws else rest in
    if not (is_available w) then w ∷ rest else if is_expired c now w then left else w ∷ left

unfoldable pub cleanup : ℕ → Pool → Pool
unfolding cleanup_from
cleanup now p =
    if sle (length p.workers) p.cfg.min_workers
    then p
    else record p { workers = cleanup_from p.cfg now (length p.workers) p.workers }
