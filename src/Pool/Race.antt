-- ===== src/Pool/Race.antt =====
-- The fast path of `Acquire` holds the pool's read lock, which several callers hold together: its
-- test and its write are steps of their own. The transitions of one caller interleave with the
-- other's.
use cloud_agent_platform.Base.{◌≡◌, String, true, some, List}
use cloud_agent_platform.Pool.Worker.{Worker, busy, set_status, is_available}
use cloud_agent_platform.Pool.Ops.{get_worker, modify}

-- Where a caller is in the loop: before the test, after it succeeded on a worker, and after the
-- return.
pub data Caller : Type 0 where
  looking : Caller
  tested holding : String → Caller

-- The workers and the two callers.
pub record State : Type 0 where
  pub workers : List Worker
  pub first : Caller
  pub second : Caller

-- One step of one caller.
pub data CallerStep : List Worker → Caller → List Worker → Caller → Type 0 where
  test :
      {ws : List Worker} {id : String} {w : Worker}
      → get_worker id ws ≡ some w
      → is_available w ≡ true
      → CallerStep ws looking ws (tested id)
  claim :
      {ws : List Worker} {id : String}
      → CallerStep ws (tested id) (modify id (set_status busy) ws) (holding id)

infix 40 ◌⟶◌
pub data ◌⟶◌ : State → State → Type 0 where
  by_first :
      {ws vs : List Worker} {a b c : Caller}
      → CallerStep ws a vs b
      → record { workers = ws; first = a; second = c }
        ⟶ record { workers = vs; first = b; second = c }
  by_second :
      {ws vs : List Worker} {a b c : Caller}
      → CallerStep ws a vs b
      → record { workers = ws; first = c; second = a }
        ⟶ record { workers = vs; first = c; second = b }

infix 40 ◌⟶*◌
pub data ◌⟶*◌ : State → State → Type 0 where
  done : {s : State} → s ⟶* s
  step : {s t u : State} → s ⟶ t → t ⟶* u → s ⟶* u

-- Both callers return the same worker, in any pool with an available worker: both test before
-- either writes.
pub both_hold :
    (ws : List Worker) (id : String) (w : Worker)
    → get_worker id ws ≡ some w
    → is_available w ≡ true
    → record { workers = ws; first = looking; second = looking } ⟶* record {
      workers = modify id (set_status busy) (modify id (set_status busy) ws);
      first = holding id;
      second = holding id;
    }
both_hold ws id w e f =
    step (by_first (test e f))
      (step (by_second (test e f)) (step (by_first claim) (step (by_second claim) done)))
