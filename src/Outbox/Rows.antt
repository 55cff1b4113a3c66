-- ===== src/Outbox/Rows.antt =====
-- What one cycle of the poller does to each row of the table.
use mathlib.Core.Path.{subst}
use cloud_agent_platform.Base.{
  ℕ, ◌≡◌, refl, ◌∙◌, inl, inr, String, false, ◌&&◌, Option, none, some, List, [], ◌∷◌, arith, ◌==◌,
  string_comparable, same_self, if◌then◌else◌, All, contains, IsDistinct, Bool-cases, Option-cases,
}
use cloud_agent_platform.Base.Int64.{inc}
use cloud_agent_platform.Outbox.Poller.{
  OutboxEvent, Answer, update, set_published, mark_published, set_failed, backs_off, mark_failed,
  process_event, process_events,
}

unfoldable pub find_row : String → List OutboxEvent → Option OutboxEvent
find_row id [] = none
find_row id (r ∷ rs) = if r.id == id then some r else find_row id rs

unfoldable pub ids : List OutboxEvent → List String
ids [] = []
ids (r ∷ rs) = r.id ∷ ids rs

abbrev pub map_row : (OutboxEvent → OutboxEvent) → Option OutboxEvent → Option OutboxEvent
map_row f none = none
map_row f (some r) = some (f r)

find_row-update :
    (id key : String) (f : OutboxEvent → OutboxEvent) (rs : List OutboxEvent)
    → ((r : OutboxEvent) → (f r).id ≡ r.id)
    → find_row id (update key f rs)
      ≡ (if key == id then map_row f (find_row id rs) else find_row id rs)
unfolding find_row update
find_row-update id key f [] k = ground arith
find_row-update id key f (r ∷ rs) k = ground (
  arith,
  k r,
  find_row-update id key f rs k,
  string_comparable.same_iff key id,
  string_comparable.same_iff r.id key,
  string_comparable.same_iff r.id id,
)

-- The specification: what becomes of a row that was fetched as `e`.
abbrev pub processed : ℕ → Answer → OutboxEvent → OutboxEvent → OutboxEvent
processed max_retries a e r = elim a.forward_error [
  | none ↦ if a.saved then set_published r else r
  | some message ↦
      if backs_off max_retries e.retry_count && a.cancelled
      then r
      else if a.saved
      then set_failed max_retries (inc e.retry_count) message r
      else r
]

pub set_failed-id :
    (max_retries count : ℕ) (message : String) (r : OutboxEvent)
    → (set_failed max_retries count message r).id ≡ r.id
set_failed-id max_retries count message r = ground arith

find_row-process_event :
    (id : String) (max_retries : ℕ) (a : Answer) (e : OutboxEvent) (rs : List OutboxEvent)
    → find_row id (process_event max_retries a e rs).0 ≡ (
        if e.id == id then map_row (processed max_retries a e) (find_row id rs) else find_row id rs)
unfolding process_event mark_failed mark_published
find_row-process_event id max_retries a e rs = elim (Option-cases a.forward_error) [
  | inl g ↦
      rw (g, process_event) (ground (arith, find_row-update id e.id set_published rs (λ r. refl)))
  | inr (message, g) ↦
      let f = set_failed max_retries (inc e.retry_count) message in
      rw (g, process_event)
        (ground (
          arith,
          find_row-update id e.id f rs (set_failed-id max_retries (inc e.retry_count) message),
        ))
]

-- The fetched events are the table's rows.
abbrev pub IsCurrent : List OutboxEvent → List OutboxEvent → Type 0
IsCurrent rs es = All (λ e. find_row e.id rs ≡ some e) es

pub find_row-absent :
    (id : String) (es : List OutboxEvent) → contains id (ids es) ≡ false → find_row id es ≡ none
unfolding find_row ids contains
find_row-absent id [] h = refl
find_row-absent id (e ∷ es) h = ground (arith, find_row-absent id es)

process_event-IsCurrent :
    (max_retries : ℕ) (a : Answer) (e : OutboxEvent) (rs es : List OutboxEvent)
    → contains e.id (ids es) ≡ false
    → IsCurrent rs es
    → IsCurrent (process_event max_retries a e rs).0 es
unfolding ids contains
process_event-IsCurrent max_retries a e rs [] h c = tt
process_event-IsCurrent max_retries a e rs (x ∷ xs) h (c, cs) = (
  ground (
    arith,
    find_row-process_event x.id max_retries a e rs,
    string_comparable.same_iff x.id e.id,
    string_comparable.same_iff e.id x.id,
  ),
  process_event-IsCurrent max_retries a e rs xs (ground arith) cs,
)

-- The row that a cycle leaves under an identifier, by the event that was fetched under it.
abbrev pub settled :
    ℕ → (String → Answer) → String → List OutboxEvent → Option OutboxEvent → Option OutboxEvent
settled max_retries answers id rs none = find_row id rs
settled max_retries answers id rs (some e) = some (processed max_retries (answers id) e e)

settled_same :
    (max_retries : ℕ) (answers : String → Answer) (id : String) (rs rs' : List OutboxEvent)
    (o : Option OutboxEvent)
    → find_row id rs' ≡ find_row id rs
    → settled max_retries answers id rs' o ≡ settled max_retries answers id rs o
settled_same max_retries answers id rs rs' none h = h
settled_same max_retries answers id rs rs' (some e) h = refl

-- The event itself, once it is processed and not fetched again.
own_row :
    (max_retries : ℕ) (answers : String → Answer) (e : OutboxEvent) (es rs : List OutboxEvent)
    → contains e.id (ids es) ≡ false
    → find_row e.id rs ≡ some e
    → settled max_retries answers e.id
        (process_event max_retries (answers e.id) e rs).0
        (find_row e.id es)
      ≡ some (processed max_retries (answers e.id) e e)
own_row max_retries answers e es rs fresh now =
    let absent = find_row-absent e.id es fresh in
    let here = find_row-process_event e.id max_retries (answers e.id) e rs in
    rw absent (here ∙ rw (same_self e.id, now) refl)

-- The cycle's loop, over fetched events with different identifiers that are rows of the table: each
-- of these rows becomes what its answer makes of it, and all other rows stay.
pub process_events_lem :
    (id : String) (max_retries : ℕ) (answers : String → Answer) (es rs : List OutboxEvent)
    → IsDistinct (ids es)
    → IsCurrent rs es
    → find_row id (process_events max_retries answers es rs).0
      ≡ settled max_retries answers id rs (find_row id es)
unfolding process_events find_row ids
process_events_lem id max_retries answers [] rs d c = refl
process_events_lem id max_retries answers (e ∷ es) rs (fresh, d) (now, c) =
    let rs' = (process_event max_retries (answers e.id) e rs).0 in
    let current = process_event-IsCurrent max_retries (answers e.id) e rs es fresh c in
    let later = process_events_lem id max_retries answers es rs' d current in
    elim (Bool-cases (e.id == id)) [
      | inr other ↦
          let stays = rw other at (find_row-process_event id max_retries (answers e.id) e rs) in
          rw other (later ∙ settled_same max_retries answers id rs rs' (find_row id es) stays)
      | inl same ↦ rw same (
          later
          ∙ subst
              (λ i.
                settled max_retries answers i rs' (find_row i es)
                ≡ some (processed max_retries (answers i) e e))
              ((string_comparable.same_iff e.id id).0 same)
              (own_row max_retries answers e es rs fresh now))
    ]
