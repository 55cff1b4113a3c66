-- ===== src/Conversation/Inverted.antt =====
-- Which of the items that are not protected a compression removes, how many, and in which order.
use Prim.Native.Nat.{min}
use cloud_agent_platform.Base.{
  ℕ, ◌+◌, Bool, true, false, not, ◌&&◌, List, ◌-◌, ◌≡◌, ◌∙◌, refl, sym, ap, arith, length, map, All,
  All-map, if◌then◌else◌, ltb, leb,
}
use cloud_agent_platform.Base.Float.{Float}
use cloud_agent_platform.Base.Int64.{slt}
use cloud_agent_platform.Sorting.{sort_by}
use cloud_agent_platform.Sorting.Order.{IsSorted-sort_by}
use cloud_agent_platform.Sorting.Taken.{
  how_many, how_many-append, how_many-sort_by, length-sort_by, drop-Dropped, mark_from-Taken,
}
use cloud_agent_platform.Conversation.Kept.{is_protected}
use cloud_agent_platform.Conversation.Parts.{Constraint, ConversationMessage}
use cloud_agent_platform.Conversation.Compress.{
  CompressionStrategy, aggressive, moderate, conservative, other_strategy, Compressor,
  constraint_less, message_less, keeps_message, remove_fraction, kept_soft, marked_messages,
}

message_asym : (x y : ConversationMessage) → message_less y x ≡ true → message_less x y ≡ false
message_asym x y h = ground arith

message_trans :
    (x y z : ConversationMessage)
    → message_less y x ≡ false
    → message_less z y ≡ false
    → message_less z x ≡ false
message_trans x y z h k = ground arith

constraint_asym : (x y : Constraint) → constraint_less y x ≡ true → constraint_less x y ≡ false
constraint_asym x y h = ground arith

constraint_trans :
    (x y z : Constraint)
    → constraint_less y x ≡ false
    → constraint_less z y ≡ false
    → constraint_less z x ≡ false
constraint_trans x y z h k = ground arith

-- A message that is not protected.
abbrev pub can_go : ConversationMessage → Bool
can_go m = not (is_protected m)

-- r goes before k: k has no lower number of priority, and with the same one it is not newer.
abbrev pub GoesBefore : ConversationMessage → ConversationMessage → Type 0
GoesBefore r k =
    (slt k.priority r.priority ≡ false)
    × (r.priority ≡ k.priority → leb k.timestamp r.timestamp ≡ true)

message-GoesBefore : (r k : ConversationMessage) → message_less k r ≡ false → GoesBefore r k
message-GoesBefore r k h = (ground arith, λ e. ground arith)

-- The messages that a compression marks: as many as there are above the number that is preserved, or
-- all that are not protected if those are fewer. Together with those that it keeps they are the
-- messages that are not protected, and none that is kept has a lower number of priority, or the same
-- and a later time, than one that is marked.
pub marked_messages_lem :
    (c : Compressor) (ms : List ConversationMessage)
    → (removed kept : List ConversationMessage) × (marked_messages c ms ≡ map (λ m. m.id) removed)
      × (length removed ≡ min (length ms - c.preserve_recent_messages) (how_many can_go ms))
      × ((p : ConversationMessage → Bool)
          → how_many p removed + how_many p kept ≡ how_many (λ m. can_go m && p m) ms)
      × All (λ r. All (λ k. GoesBefore r k) kept) removed
unfolding marked_messages
marked_messages_lem c ms =
    let sorted = sort_by message_less ms in
    let t =
      mark_from-Taken message_less message_asym message_trans (λ m. m.id) keeps_message
        (length ms - c.preserve_recent_messages) sorted
        (IsSorted-sort_by message_less message_asym message_trans ms) in
    (
      t.removed,
      t.kept,
      t.marked,
      t.number
          ∙ ap (min (length ms - c.preserve_recent_messages))
              (how_many-sort_by message_less can_go ms),
      λ p. t.whole p ∙ how_many-sort_by message_less (λ m. can_go m && p m) ms,
      All-map _ _ t.removed (λ r h. All-map _ _ t.kept (λ k. message-GoesBefore r k) h) t.below,
    )

-- r goes before k: k has no lower number of priority, and with the same one it is not older.
abbrev pub RemovedBefore : Constraint → Constraint → Type 0
RemovedBefore r k =
    (slt k.priority r.priority ≡ false)
    × (r.priority ≡ k.priority → leb r.created_at k.created_at ≡ true)

constraint-RemovedBefore : (r k : Constraint) → constraint_less k r ≡ false → RemovedBefore r k
constraint-RemovedBefore r k h = (ground arith, λ e. ground arith)

-- 0.5, 0.1 and, for each other strategy, 0.3.
abbrev pub fraction_bits : CompressionStrategy → ℕ
fraction_bits aggressive = 4602678819172646912
fraction_bits conservative = 4591870180066957722
fraction_bits _ = 4599075939470750515

remove_fraction-bits :
    (fl : Float) (s : CompressionStrategy) → remove_fraction fl s ≡ fl.of_bits (fraction_bits s)
unfolding remove_fraction
remove_fraction-bits fl aggressive = refl
remove_fraction-bits fl moderate = refl
remove_fraction-bits fl conservative = refl
remove_fraction-bits fl other_strategy = refl

cut-min : (n k : ℕ) → min (if ltb n k then n else k) n ≡ min n k
cut-min n k = ground arith

-- Of the constraints that are not hard, a compression removes a half, one of ten or three of ten, by
-- the strategy and as float64 multiplies and rounds, but no more than there are. With those that it
-- keeps they are the constraints that were there, and none that is kept has a lower number of
-- priority, or the same and an earlier time, than one that is removed.
pub kept_soft_lem :
    (fl : Float) (c : Compressor) (soft : List Constraint)
    → (removed : List Constraint) × (length removed
        ≡ min (length soft) (
            fl.truncate
              (fl.multiply (fl.of_int (length soft)) (fl.of_bits (fraction_bits c.strategy)))))
      × ((p : Constraint → Bool)
          → how_many p removed + how_many p (kept_soft fl c soft) ≡ how_many p soft)
      × All (λ r. All (λ k. RemovedBefore r k) (kept_soft fl c soft)) removed
unfolding kept_soft
kept_soft_lem fl c soft =
    let n = length soft in
    let share = λ (x : fl.F). fl.truncate (fl.multiply (fl.of_int n) x) in
    let count = share (remove_fraction fl c.strategy) in
    let cut = if ltb n count then n else count in
    let sorted = sort_by constraint_less soft in
    let d =
      drop-Dropped constraint_less constraint_asym constraint_trans cut sorted
        (IsSorted-sort_by constraint_less constraint_asym constraint_trans soft) in
    (
      d.removed,
      d.number
          ∙ ap (min cut) (length-sort_by constraint_less soft)
          ∙ cut-min n count
          ∙ ap (λ x. min n (share x)) (remove_fraction-bits fl c.strategy),
      λ p.
          sym (how_many-append p d.removed (kept_soft fl c soft))
          ∙ ap (how_many p) d.whole
          ∙ how_many-sort_by constraint_less p soft,
      All-map _ _ d.removed
          (λ r h. All-map _ _ (kept_soft fl c soft) (λ k. constraint-RemovedBefore r k) h) d.below,
    )
