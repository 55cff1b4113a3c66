-- ===== src/Pool/Cleanup.antt =====
-- `cleanup` and the lower limit: what it removes, and how many workers it and `scale` leave.
use cloud_agent_platform.Base.{
  ℕ, ◌+◌, ◌%◌, ◌≤◌, ◌<◌, ◌≡◌, refl, ◌&&◌, List, [], ◌∷◌, arith, length, if◌then◌else◌,
}
use cloud_agent_platform.Base.Int64.{modulus, sign_bit, sub}
use cloud_agent_platform.Pool.Config.{Config, IsUsable}
use cloud_agent_platform.Pool.Worker.{Worker, is_available}
use cloud_agent_platform.Pool.Ops.{Pool}
use cloud_agent_platform.Pool.Loops.{
  Answers, at_most, at_least, rounds, is_expired, scale, cleanup_from, cleanup,
}
use cloud_agent_platform.Pool.Size.{le-length-scale_up_from, length-scale_down_from}

-- The workers that a cleanup has to leave alone: those in use, and those not idle for long enough.
abbrev pub retained : Config → ℕ → List Worker → List Worker
retained c now [] = []
retained c now (w ∷ ws) =
    if is_available w && is_expired c now w then retained c now ws else w ∷ retained c now ws

retained-cleanup_from :
    (c : Config) (now size : ℕ) (ws : List Worker)
    → retained c now (cleanup_from c now size ws) ≡ retained c now ws
unfolding cleanup_from
retained-cleanup_from c now size [] = refl
retained-cleanup_from c now size (w ∷ ws) = ground (
  arith,
  retained-cleanup_from c now size ws,
  retained-cleanup_from c now (if is_expired c now w then sub size 1 else size) ws,
)

-- With more than the minimum at the start, the loop stops at the minimum.
length-cleanup_from-min :
    (c : Config) (now size : ℕ) (ws : List Worker)
    → c.min_workers < sign_bit
    → size < sign_bit
    → length ws ≤ size
    → c.min_workers < size
    → c.min_workers + length ws ≤ length (cleanup_from c now size ws) + size
unfolding cleanup_from
length-cleanup_from-min c now size [] k l h b = omega arith
length-cleanup_from-min c now size (w ∷ ws) k l h b = ground (
  arith,
  length-cleanup_from-min c now size ws k l,
  length-cleanup_from-min c now (if is_expired c now w then sub size 1 else size) ws,
)

-- A cleanup leaves at least `min_workers` workers of a pool that had them, and it keeps, in their
-- order, all the workers that are not available or have not been idle for longer than the time to
-- live.
pub cleanup_lem :
    (now : ℕ) (p : Pool)
    → IsUsable p.cfg
    → length p.workers < sign_bit
    → p.cfg.min_workers ≤ length p.workers
    → (p.cfg.min_workers ≤ length (cleanup now p).workers)
      × (retained p.cfg now (cleanup now p).workers ≡ retained p.cfg now p.workers)
unfolding cleanup
cleanup_lem now p u k h =
    let least = u.min_nonneg in
    (
      ground (arith, length-cleanup_from-min p.cfg now (length p.workers) p.workers least k),
      ground (arith, retained-cleanup_from p.cfg now (length p.workers) p.workers),
    )

-- Scaling with an exact count leaves at least `min_workers` workers of a pool that had them.
scale-min :
    (pending : ℕ) (created : Answers) (now : ℕ) (p : Pool)
    → IsUsable p.cfg
    → length p.workers < sign_bit
    → p.cfg.min_workers ≤ length p.workers
    → p.cfg.min_workers ≤ length (scale pending (length p.workers) created now p).workers
unfolding scale
scale-min pending created now p u k h =
    let current = length p.workers in
    let higher = at_most p.cfg.max_workers ((current + p.cfg.scale_up_step) % modulus) in
    let lower = at_least p.cfg.min_workers (sub current p.cfg.scale_down_step) in
    let least = u.min_nonneg in
    let step = u.down_nonneg in
    ground (
      arith,
      le-length-scale_up_from (rounds (sub higher current)) p.cfg.max_workers 0 created now
          p.workers,
      length-scale_down_from (rounds (sub current lower)) p.workers,
    )
