-- ===== src/Pool/Limits.antt =====
-- Where the pool leaves its limits: the health check, and a second `Start`.
use cloud_agent_platform.Base.{
  ℕ, ◌+◌, ◌≡◌, refl, String, true, none, some, List, [], ◌∷◌, arith, length, string_comparable,
}
use cloud_agent_platform.Pool.Worker.{Worker, idle, new_worker, set_status}
use cloud_agent_platform.Pool.Ops.{Pool, put, get_worker, create_worker, stop_pool}
use cloud_agent_platform.Pool.Loops.{Answers, replace_unhealthy, start, prewarm}

length-put-fresh :
    (w : Worker) (ws : List Worker) → get_worker w.id ws ≡ none → length (put w ws) ≡ length ws + 1
unfolding put get_worker
length-put-fresh w [] h = refl
length-put-fresh w (v ∷ vs) h = ground (arith, length-put-fresh w vs)

-- The replacement of an unhealthy worker adds a worker, whatever the size: with a new identifier
-- from the sandbox, the pool has one worker more until the old one is destroyed.
length-replace_unhealthy :
    (id : String) (now : ℕ) (p : Pool)
    → get_worker id p.workers ≡ none
    → length (replace_unhealthy (some id) now p).workers ≡ length p.workers + 1
unfolding replace_unhealthy create_worker new_worker set_status
length-replace_unhealthy id now p h =
    length-put-fresh (set_status idle (new_worker id now)) p.workers h

-- A pool that was stopped and started again cannot be stopped: the second `Stop` closes the closed
-- channel, and panics.
stop_pool-start :
    (created : Answers) (now : ℕ) (p q : Pool)
    → p.running ≡ true
    → stop_pool p ≡ some q
    → stop_pool (start created now q).0 ≡ none
unfolding stop_pool start prewarm
stop_pool-start created now p q r h = ground arith
