-- ===== src/Conversation/Examples.antt =====
-- The theorems on contexts at a concrete context, and tests.
use cloud_agent_platform.Base.{
  ℕ, ◌+◌, Bool, ◌&&◌, All, map, length, nat_beq, if◌then◌else◌, String, false, some, List, [], ◌∷◌,
  ◌≡◌, ◌/◌, ◌*◌, refl, Bool-cases, inl, inr, ◌==◌, string_comparable, arith,
}
use Prim.Native.Nat.{min}
use mathlib.Core.Path.{subst}
use cloud_agent_platform.Base.Float.{Float, hundredths}
use cloud_agent_platform.Conversation.Parts.{
  Constraint, non_negotiable, preferable, ConversationMessage, MessageRole, user, agent, system,
  new_conversation_message, new_constraint, set_priority,
}
use cloud_agent_platform.Conversation.{TaskContext, new_task_context, add_message_tokens}
use cloud_agent_platform.Conversation.Compress.{
  moderate, Compressor, compress_to_budget, CompressionResult, message_less, kept_soft,
  marked_messages,
}
use cloud_agent_platform.Conversation.Removal.{has, others}
use cloud_agent_platform.Conversation.Kept.{is_protected, AreApart, Keeps, compress_to_budget-Keeps}
use cloud_agent_platform.Conversation.Counted.{
  Operation, message, constraint, compression, run, run-IsCounted,
}
use cloud_agent_platform.Sorting.Taken.{how_many}
use cloud_agent_platform.Conversation.Inverted.{
  can_go, GoesBefore, RemovedBefore, marked_messages_lem, kept_soft_lem,
}

-- Whole hundredths, with the fractions that the compressor has.
abbrev fractions : Float
fractions = record hundredths {
  of_bits = λ n.
      if nat_beq n 4602678819172646912
      then 50
      else if nat_beq n 4599075939470750515
      then 30
      else 10;
}

abbrev said : String → MessageRole → ℕ → ℕ → ConversationMessage
unfolding new_conversation_message
said id role now priority =
    set_priority priority (new_conversation_message id now role "a long text")

abbrev two_kept : Compressor
two_kept = record { strategy = moderate; preserve_recent_messages = 2; preserve_recent_files = 1 }

abbrev talk : List ConversationMessage
talk = said "m1" system 1 0 ∷ said "m2" agent 2 9 ∷ said "m3" agent 3 0 ∷ said "m4" agent 4 0 ∷ []

abbrev wish : String → ℕ → Constraint
unfolding new_constraint
wish id now = new_constraint id now preferable "style" "short"

abbrev must : Constraint
unfolding new_constraint
must = new_constraint "c0" 1 non_negotiable "security" "no secrets"

abbrev small : TaskContext
unfolding new_task_context
small = record (new_task_context "x1" 1 "t1" "goal") {
  messages = talk;
  constraints = must ∷ wish "c1" 2 ∷ [];
  token_budget = 10;
}

small-AreApart : AreApart small
unfolding small said new_conversation_message has
small-AreApart = record {
  messages = λ k h. elim (Bool-cases ("m1" == k)) [
    | inl e ↦
        subst
          (λ j.
            has (λ m. m.id) is_protected message_less (others (λ m. m.id) is_protected message_less)
              j talk
            ≡ false)
          ((string_comparable.same_iff "m1" k).0 e) refl
    | inr e ↦ absurd (ground (arith, e, h))
  ];
  files = λ k h. refl;
}

compress_to_budget-Keeps_example :
    (tc' : TaskContext) × (r : CompressionResult fractions) × (compress_to_budget fractions two_kept
        (some small)
        0
      ≡ some (tc', r))
    × Keeps small tc'
compress_to_budget-Keeps_example =
    compress_to_budget-Keeps fractions two_kept small 0 small-AreApart

abbrev calls : List Operation
calls = message 2 (said "m1" user 2 0) ∷ constraint 3 must ∷ compression two_kept ∷ []

run-IsCounted_example :
    (run fractions calls (new_task_context "x1" 1 "t1" "goal")).tokens_used
    ≡ add_message_tokens 0 (run fractions calls (new_task_context "x1" 1 "t1" "goal")).messages
run-IsCounted_example = run-IsCounted fractions calls "x1" "t1" "goal" 1

marked_messages_lem_example :
    (removed kept : List ConversationMessage) × (marked_messages two_kept talk
      ≡ map (λ m. m.id) removed)
    × (length removed ≡ min 2 (how_many can_go talk))
    × ((p : ConversationMessage → Bool)
        → how_many p removed + how_many p kept ≡ how_many (λ m. can_go m && p m) talk)
    × All (λ r. All (λ k. GoesBefore r k) kept) removed
marked_messages_lem_example = marked_messages_lem two_kept talk

abbrev wishes : List Constraint
wishes = wish "c1" 5 ∷ wish "c2" 4 ∷ wish "c3" 3 ∷ wish "c4" 2 ∷ []

kept_soft_lem_example :
    (removed : List Constraint) × (length removed ≡ min 4 (4 * 100 * 30 / 100 / 100))
    × ((p : Constraint → Bool)
        → how_many p removed + how_many p (kept_soft fractions two_kept wishes) ≡ how_many p wishes)
    × All (λ r. All (λ k. RemovedBefore r k) (kept_soft fractions two_kept wishes)) removed
kept_soft_lem_example = kept_soft_lem fractions two_kept wishes

-- Three of ten of four wishes are one, the oldest.
kept_wishes : kept_soft fractions two_kept wishes ≡ wish "c3" 3 ∷ wish "c2" 4 ∷ wish "c1" 5 ∷ []
unfolding kept_soft wish new_constraint
kept_wishes = refl

-- The two newest messages of the best priority are marked, and the one that can go is not.
marked_talk : marked_messages two_kept talk ≡ "m4" ∷ "m3" ∷ []
unfolding marked_messages said new_conversation_message
marked_talk = refl
