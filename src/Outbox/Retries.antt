-- ===== src/Outbox/Retries.antt =====
-- One event through the cycles of the poller: how often it is tried, and where it ends.
use Prim.Native.Nat.{min}
use cloud_agent_platform.Base.{
  ℕ, ◌+◌, ◌<◌, ◌≡◌, refl, inl, inr, String, true, false, none, some, List, [], ◌∷◌, ◌++◌, ◌∙◌, ap,
  arith, if◌then◌else◌, Bool-cases, ltb, length,
}
use cloud_agent_platform.Base.Int64.{IsNonneg}
use cloud_agent_platform.Outbox.Poller.{OutboxEvent, Answer, is_due, pending, published, failed}
use cloud_agent_platform.Outbox.Rows.{processed}

-- What a cycle that fetches all that is due does to a row.
abbrev pub attempt : ℕ → Answer → OutboxEvent → OutboxEvent
attempt max_retries a r = if is_due max_retries r then processed max_retries a r r else r

unfoldable pub attempts : ℕ → List Answer → OutboxEvent → OutboxEvent
attempts max_retries [] r = r
attempts max_retries (a ∷ later) r = attempts max_retries later (attempt max_retries a r)

abbrev refused : String → Answer
refused message = record { forward_error = some message; cancelled = false; saved = true }

abbrev pub all_refused : List String → List Answer
all_refused [] = []
all_refused (m ∷ ms) = refused m ∷ all_refused ms

abbrev pub accepted : Answer
accepted = record { forward_error = none; cancelled = false; saved = true }

-- A row that is not due stays as it is.
pub attempts_done :
    (max_retries : ℕ) (later : List Answer) (r : OutboxEvent)
    → is_due max_retries r ≡ false
    → attempts max_retries later r ≡ r
unfolding attempts
attempts_done max_retries [] r h = refl
attempts_done max_retries (a ∷ later) r h = rw (h, attempts) (attempts_done max_retries later r h)

-- The count and the status of a pending row below the limit that is refused again and again.
pub attempts_refused :
    (max_retries : ℕ) (ms : List String) (r : OutboxEvent)
    → IsNonneg max_retries
    → r.status ≡ pending
    → r.retry_count < max_retries
    → ((attempts max_retries (all_refused ms) r).retry_count
        ≡ min (r.retry_count + length ms) max_retries)
      × ((attempts max_retries (all_refused ms) r).status
          ≡ (if ltb (r.retry_count + length ms) max_retries then pending else failed))
unfolding attempts
attempts_refused max_retries [] r n p l = (omega arith, ground arith)
attempts_refused max_retries (m ∷ ms) r n p l =
    let r' = attempt max_retries (refused m) r in
    elim (Bool-cases (ltb (r.retry_count + 1) max_retries)) [
      | inl below ↦ ground (arith, attempts_refused max_retries ms r' n)
      | inr full ↦ ground (arith, attempts_done max_retries (all_refused ms) r')
    ]

-- The message of the last refusal.
abbrev pub last_message : List String → String → String
last_message [] old = old
last_message (m ∷ ms) old = last_message ms m

refused_once :
    (max_retries : ℕ) (m : String) (r : OutboxEvent)
    → IsNonneg max_retries
    → r.status ≡ pending
    → r.retry_count + 1 < max_retries
    → attempt max_retries (refused m) r
      ≡ (record r { retry_count = r.retry_count + 1; last_error = m })
refused_once max_retries m r n p l = ground arith

-- A pending row that is refused less often than the limit, and then accepted, is published, and stays
-- so.
pub attempts-accepted :
    (max_retries : ℕ) (ms : List String) (later : List Answer) (r : OutboxEvent)
    → IsNonneg max_retries
    → r.status ≡ pending
    → r.retry_count + length ms < max_retries
    → attempts max_retries (all_refused ms ++ accepted ∷ later) r ≡ (record r {
      status = published;
      retry_count = r.retry_count + length ms;
      last_error = last_message ms r.last_error;
    })
unfolding attempts
attempts-accepted max_retries [] later r n p l =
    ground (arith, attempts_done max_retries later (record r { status = published }))
attempts-accepted max_retries (m ∷ ms) later r n p l =
    let r' : OutboxEvent = record r { retry_count = r.retry_count + 1; last_error = m } in
    ap (attempts max_retries (all_refused ms ++ accepted ∷ later))
      (refused_once max_retries m r n p (omega (arith, l)))
    ∙ attempts-accepted max_retries ms later r' n p (omega (arith, l))
    ∙ ap (λ k. record r { status = published; retry_count = k; last_error = last_message ms m })
        (omega arith)
