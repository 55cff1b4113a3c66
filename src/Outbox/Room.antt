-- ===== src/Outbox/Room.antt =====
-- The query of the poller, when a batch has room for the whole table: all that is due is fetched.
use mathlib.Core.Path.{subst}
use cloud_agent_platform.Base.{
  ℕ, zero, suc, ◌+◌, ◌≤◌, ◌≡◌, refl, ap, ◌∙◌, inl, inr, String, false, none, some, List, [], ◌∷◌,
  arith, ◌==◌, string_comparable, if◌then◌else◌, contains, IsDistinct, Bool-cases, length,
}
use cloud_agent_platform.Outbox.Poller.{
  OutboxEvent, is_due, where_due, insert_by_time, order_by_time, limit, fetch_pending_events,
}
use cloud_agent_platform.Outbox.Rows.{find_row, find_row-absent, ids}
use cloud_agent_platform.Outbox.Fetched.{
  absent-where_due, contains-order_by_time, IsDistinct-where_due,
}

pub length-ids : (rs : List OutboxEvent) → length (ids rs) ≡ length rs
unfolding ids
length-ids [] = refl
length-ids (r ∷ rs) = ap suc (length-ids rs)

length-where_due : (m : ℕ) (rs : List OutboxEvent) → length (where_due m rs) ≤ length rs
unfolding where_due
length-where_due m [] = omega arith
length-where_due m (r ∷ rs) = ground (arith, length-where_due m rs)

length-insert_by_time :
    (e : OutboxEvent) (rs : List OutboxEvent) → length (insert_by_time e rs) ≡ length rs + 1
unfolding insert_by_time
length-insert_by_time e [] = refl
length-insert_by_time e (r ∷ rs) = ground (arith, length-insert_by_time e rs)

length-order_by_time : (rs : List OutboxEvent) → length (order_by_time rs) ≡ length rs
unfolding order_by_time
length-order_by_time [] = refl
length-order_by_time (r ∷ rs) =
    omega (arith, length-insert_by_time r (order_by_time rs), length-order_by_time rs)

limit-all : (n : ℕ) (rs : List OutboxEvent) → length rs ≤ n → limit n rs ≡ rs
unfolding limit
limit-all zero [] h = refl
limit-all zero (r ∷ rs) h = absurd (omega arith)
limit-all (suc n) [] h = refl
limit-all (suc n) (r ∷ rs) h = ap (λ xs. r ∷ xs) (limit-all n rs (omega arith))

find_row-where_due :
    (id : String) (m : ℕ) (rs : List OutboxEvent) (r : OutboxEvent)
    → IsDistinct (ids rs)
    → find_row id rs ≡ some r
    → find_row id (where_due m rs) ≡ (if is_due m r then some r else none)
unfolding find_row where_due ids
find_row-where_due id m [] r d h = cc
find_row-where_due id m (x ∷ xs) r (fresh, d) h =
    let gone = find_row-absent x.id (where_due m xs) (absent-where_due x.id m xs fresh) in
    elim (Bool-cases (x.id == id)) [
      | inl same ↦
          let gone' =
            subst (λ i. find_row i (where_due m xs) ≡ none)
              ((string_comparable.same_iff x.id id).0 same) gone in
          ground arith
      | inr other ↦ ground (arith, find_row-where_due id m xs r d)
    ]

find_row-insert_by_time :
    (id : String) (e : OutboxEvent) (rs : List OutboxEvent)
    → contains e.id (ids rs) ≡ false
    → find_row id (insert_by_time e rs) ≡ (if e.id == id then some e else find_row id rs)
unfolding find_row insert_by_time ids contains
find_row-insert_by_time id e [] h = refl
find_row-insert_by_time id e (r ∷ rs) h = ground (
  arith,
  find_row-insert_by_time id e rs,
  string_comparable.same_iff e.id id,
  string_comparable.same_iff r.id id,
  string_comparable.same_iff r.id e.id,
  string_comparable.same_iff e.id r.id,
)

find_row-order_by_time :
    (id : String) (rs : List OutboxEvent)
    → IsDistinct (ids rs)
    → find_row id (order_by_time rs) ≡ find_row id rs
unfolding find_row order_by_time ids
find_row-order_by_time id [] d = refl
find_row-order_by_time id (r ∷ rs) (fresh, d) = ground (
  arith,
  find_row-insert_by_time id r (order_by_time rs),
  contains-order_by_time r.id rs,
  find_row-order_by_time id rs d,
)

pub find_row-fetch :
    (id : String) (m n : ℕ) (rs : List OutboxEvent) (r : OutboxEvent)
    → IsDistinct (ids rs)
    → length rs ≤ n
    → find_row id rs ≡ some r
    → find_row id (fetch_pending_events m n rs) ≡ (if is_due m r then some r else none)
unfolding fetch_pending_events
find_row-fetch id m n rs r d k h =
    let due = where_due m rs in
    let room : length (order_by_time due) ≤ n =
      omega (arith, length-order_by_time due, length-where_due m rs) in
    ap (find_row id) (limit-all n (order_by_time due) room)
    ∙ find_row-order_by_time id due (IsDistinct-where_due m rs d)
    ∙ find_row-where_due id m rs r d h
