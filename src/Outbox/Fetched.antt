-- ===== src/Outbox/Fetched.antt =====
-- What the query of the poller returns, and a whole cycle.
use cloud_agent_platform.Base.{
  ℕ, zero, suc, ◌≡◌, refl, inl, inr, String, true, false, ◌||◌, some, List, [], ◌∷◌, arith, ◌==◌,
  string_comparable, same_self, All, contains, IsDistinct, Bool-cases,
}
use cloud_agent_platform.Base.Int64.{sle}
use cloud_agent_platform.Outbox.Poller.{
  OutboxEvent, is_due, where_due, insert_by_time, order_by_time, limit, fetch_pending_events,
}
use cloud_agent_platform.Outbox.Rows.{find_row, ids, IsCurrent}

pub absent-where_due :
    (id : String) (m : ℕ) (rs : List OutboxEvent)
    → contains id (ids rs) ≡ false
    → contains id (ids (where_due m rs)) ≡ false
unfolding contains ids where_due
absent-where_due id m [] h = h
absent-where_due id m (r ∷ rs) h = ground (arith, absent-where_due id m rs)

contains-insert_by_time :
    (id : String) (e : OutboxEvent) (rs : List OutboxEvent)
    → contains id (ids (insert_by_time e rs)) ≡ (e.id == id || contains id (ids rs))
unfolding contains ids insert_by_time
contains-insert_by_time id e [] = refl
contains-insert_by_time id e (r ∷ rs) = ground (arith, contains-insert_by_time id e rs)

pub contains-order_by_time :
    (id : String) (rs : List OutboxEvent)
    → contains id (ids (order_by_time rs)) ≡ contains id (ids rs)
unfolding contains ids order_by_time
contains-order_by_time id [] = refl
contains-order_by_time id (r ∷ rs) =
    ground (arith, contains-insert_by_time id r (order_by_time rs), contains-order_by_time id rs)

absent-limit :
    (id : String) (n : ℕ) (rs : List OutboxEvent)
    → contains id (ids rs) ≡ false
    → contains id (ids (limit n rs)) ≡ false
unfolding contains ids limit
absent-limit id zero rs h = refl
absent-limit id (suc n) [] h = h
absent-limit id (suc n) (r ∷ rs) h = ground (arith, absent-limit id n rs)

pub IsDistinct-where_due :
    (m : ℕ) (rs : List OutboxEvent) → IsDistinct (ids rs) → IsDistinct (ids (where_due m rs))
unfolding ids where_due
IsDistinct-where_due m [] d = tt
IsDistinct-where_due m (r ∷ rs) (fresh, d) = elim (Bool-cases (is_due m r)) [
  | inl e ↦ rw e (absent-where_due r.id m rs fresh, IsDistinct-where_due m rs d)
  | inr e ↦ rw e (IsDistinct-where_due m rs d)
]

IsDistinct-insert_by_time :
    (e : OutboxEvent) (rs : List OutboxEvent)
    → contains e.id (ids rs) ≡ false
    → IsDistinct (ids rs)
    → IsDistinct (ids (insert_by_time e rs))
unfolding ids insert_by_time contains
IsDistinct-insert_by_time e [] h d = (refl, tt)
IsDistinct-insert_by_time e (r ∷ rs) h (fresh, d) =
    elim (Bool-cases (sle e.created_at r.created_at)) [
      | inl first ↦ rw first (h, (fresh, d))
      | inr later ↦ rw later (
        ground (
          arith,
          contains-insert_by_time r.id e rs,
          string_comparable.same_iff e.id r.id,
          string_comparable.same_iff r.id e.id,
        ),
        IsDistinct-insert_by_time e rs (ground arith) d,
      )
    ]

IsDistinct-order_by_time :
    (rs : List OutboxEvent) → IsDistinct (ids rs) → IsDistinct (ids (order_by_time rs))
unfolding ids order_by_time
IsDistinct-order_by_time [] d = tt
IsDistinct-order_by_time (r ∷ rs) (fresh, d) =
    IsDistinct-insert_by_time r (order_by_time rs) (ground (arith, contains-order_by_time r.id rs))
      (IsDistinct-order_by_time rs d)

IsDistinct-limit :
    (n : ℕ) (rs : List OutboxEvent) → IsDistinct (ids rs) → IsDistinct (ids (limit n rs))
unfolding ids limit
IsDistinct-limit zero rs d = tt
IsDistinct-limit (suc n) [] d = tt
IsDistinct-limit (suc n) (r ∷ rs) (fresh, d) =
    (absent-limit r.id n rs fresh, IsDistinct-limit n rs d)

-- What holds of the rows holds of the fetched ones.
module _ (P : OutboxEvent → Type 0) where
  All-insert_by_time :
      (e : OutboxEvent) (rs : List OutboxEvent) → P e → All P rs → All P (insert_by_time e rs)
  unfolding insert_by_time
  All-insert_by_time e [] h hs = (h, tt)
  All-insert_by_time e (r ∷ rs) h hs = elim (Bool-cases (sle e.created_at r.created_at)) [
    | inl first ↦ rw first (h, hs)
    | inr later ↦ rw later (hs.0, All-insert_by_time e rs h hs.1)
  ]

  All-order_by_time : (rs : List OutboxEvent) → All P rs → All P (order_by_time rs)
  unfolding order_by_time
  All-order_by_time [] hs = tt
  All-order_by_time (r ∷ rs) hs =
      All-insert_by_time r (order_by_time rs) hs.0 (All-order_by_time rs hs.1)

  All-limit : (n : ℕ) (rs : List OutboxEvent) → All P rs → All P (limit n rs)
  unfolding limit
  All-limit zero rs hs = tt
  All-limit (suc n) [] hs = tt
  All-limit (suc n) (r ∷ rs) hs = (hs.0, All-limit n rs hs.1)

  All-where_due :
      (m : ℕ) (rs : List OutboxEvent)
      → All P rs
      → All (λ r. P r × (is_due m r ≡ true)) (where_due m rs)
  unfolding where_due
  All-where_due m [] hs = tt
  All-where_due m (r ∷ rs) hs = elim (Bool-cases (is_due m r)) [
    | inl e ↦ rw e ((hs.0, e), All-where_due m rs hs.1)
    | inr e ↦ rw e (All-where_due m rs hs.1)
  ]

still-IsCurrent :
    (r : OutboxEvent) (rs xs : List OutboxEvent)
    → contains r.id (ids xs) ≡ false
    → IsCurrent rs xs
    → IsCurrent (r ∷ rs) xs
unfolding ids contains find_row
still-IsCurrent r rs [] h c = tt
still-IsCurrent r rs (x ∷ xs) h (c, cs) = (
  ground (arith, string_comparable.same_iff r.id x.id, string_comparable.same_iff x.id r.id),
  still-IsCurrent r rs xs (ground arith) cs,
)

own-IsCurrent : (rs : List OutboxEvent) → IsDistinct (ids rs) → IsCurrent rs rs
unfolding ids find_row
own-IsCurrent [] d = tt
own-IsCurrent (r ∷ rs) (fresh, d) =
    (rw (same_self r.id) refl, still-IsCurrent r rs rs fresh (own-IsCurrent rs d))

pub fetch-IsDistinct :
    (m n : ℕ) (rs : List OutboxEvent)
    → IsDistinct (ids rs)
    → IsDistinct (ids (fetch_pending_events m n rs))
unfolding fetch_pending_events
fetch-IsDistinct m n rs d =
    IsDistinct-limit n (order_by_time (where_due m rs))
      (IsDistinct-order_by_time (where_due m rs) (IsDistinct-where_due m rs d))

-- The fetched events are rows of the table that are due.
pub fetch-All :
    (m n : ℕ) (rs : List OutboxEvent)
    → IsDistinct (ids rs)
    → All (λ e. (find_row e.id rs ≡ some e) × (is_due m e ≡ true)) (fetch_pending_events m n rs)
unfolding fetch_pending_events
fetch-All m n rs d =
    let P : OutboxEvent → Type 0 = λ e. (find_row e.id rs ≡ some e) × (is_due m e ≡ true) in
    All-limit P n (order_by_time (where_due m rs)) (
      All-order_by_time P (where_due m rs)
        (All-where_due (λ e. find_row e.id rs ≡ some e) m rs (own-IsCurrent rs d)))
