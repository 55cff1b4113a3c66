-- ===== src/Conversation/Compress.antt =====
-- `Compressor` of internal/domain/context/compress.go.
use cloud_agent_platform.Base.{
  ℕ, suc, zero, ◌-◌, ◌/◌, String, Bool, true, false, Option, none, some, List, [], ◌∷◌, ◌++◌,
  nat_beq, leb, ltb, if◌then◌else◌, length, string_comparable,
}
use cloud_agent_platform.Base.Int64.{slt, sle, sub}
use cloud_agent_platform.Base.Float.{Float}
use cloud_agent_platform.Sorting.{sort_by, mark_from, unmarked, drop}
use cloud_agent_platform.Conversation.Parts.{
  Constraint, FileState, created, deleted, ConversationMessage, user, system, is_hard, plus,
  same_int,
}
use cloud_agent_platform.Conversation.{
  TaskContext, total_tokens, remaining_budget, is_budget_exceeded, recalculate_tokens, hard_of,
}

pub data CompressionStrategy : Type 0 where
  aggressive moderate conservative other_strategy : CompressionStrategy

pub record CompressionStats : Type 0 where
  pub messages : ℕ
  pub file_states : ℕ
  pub constraints : ℕ

pub record Compressor : Type 0 where
  pub strategy : CompressionStrategy
  pub preserve_recent_messages : ℕ
  pub preserve_recent_files : ℕ

unfoldable pub new_compressor : CompressionStrategy → Compressor
new_compressor aggressive = record {
  strategy = aggressive;
  preserve_recent_messages = 5;
  preserve_recent_files = 3;
}
new_compressor conservative = record {
  strategy = conservative;
  preserve_recent_messages = 20;
  preserve_recent_files = 10;
}
new_compressor s = record { strategy = s; preserve_recent_messages = 10; preserve_recent_files = 5 }

abbrev pub message_less : ConversationMessage → ConversationMessage → Bool
message_less a b =
    if same_int a.priority b.priority
    then ltb b.timestamp a.timestamp
    else slt a.priority b.priority

abbrev pub file_less : FileState → FileState → Bool
file_less a b =
    if same_int a.priority b.priority
    then ltb b.modified_at a.modified_at
    else slt a.priority b.priority

abbrev pub constraint_less : Constraint → Constraint → Bool
constraint_less a b =
    if same_int a.priority b.priority
    then ltb a.created_at b.created_at
    else slt a.priority b.priority

-- The messages and file states that are passed over.
abbrev pub keeps_message : ConversationMessage → Bool
keeps_message m = elim m.role [ system ↦ true | user ↦ slt m.priority 5 | _ ↦ false ]

abbrev pub keeps_file : FileState → Bool
keeps_file f = elim f.change_type [ deleted ↦ true | created ↦ true | _ ↦ false ]

unfoldable pub marked_messages : Compressor → List ConversationMessage → List String
unfolding sort_by mark_from
marked_messages c ms =
    mark_from (λ m. m.id) keeps_message (length ms - c.preserve_recent_messages)
      (sort_by message_less ms)

unfoldable pub compress_messages : Compressor → TaskContext → TaskContext × ℕ
unfolding marked_messages unmarked recalculate_tokens
compress_messages c tc =
    let ids = marked_messages c tc.messages in
    if leb (length tc.messages) c.preserve_recent_messages then (tc, 0) else (
      recalculate_tokens (record tc { messages = unmarked (λ m. m.id) ids tc.messages }),
      length ids,
    )

unfoldable pub marked_files : Compressor → List FileState → List String
unfolding sort_by mark_from
marked_files c fs =
    mark_from (λ f. f.id) keeps_file (length fs - c.preserve_recent_files) (sort_by file_less fs)

unfoldable pub compress_file_states : Compressor → TaskContext → TaskContext × ℕ
unfolding marked_files unmarked
compress_file_states c tc =
    let ids = marked_files c tc.file_states in
    if leb (length tc.file_states) c.preserve_recent_files
    then (tc, 0)
    else (record tc { file_states = unmarked (λ f. f.id) ids tc.file_states }, length ids)

unfoldable pub soft_of : List Constraint → List Constraint
soft_of [] = []
soft_of (c ∷ cs) = if is_hard c then soft_of cs else c ∷ soft_of cs

module _ (fl : Float) where
  open fl use {F, of_int, of_bits, multiply, divide, truncate}

  pub record CompressionResult : Type 0 where
    pub original_tokens : ℕ
    pub compressed_tokens : ℕ
    pub tokens_removed : ℕ
    pub items_removed : CompressionStats
    pub budget_after : ℕ
    pub budget_used : F

  -- `removeFraction`: 0.5, 0.3 or 0.1, by the bits of the float64.
  unfoldable pub remove_fraction : CompressionStrategy → F
  remove_fraction aggressive = of_bits 4602678819172646912
  remove_fraction moderate = of_bits 4599075939470750515
  remove_fraction conservative = of_bits 4591870180066957722
  remove_fraction other_strategy = of_bits 4599075939470750515

  -- `softConstraints[removeCount:]`
  unfoldable pub kept_soft : Compressor → List Constraint → List Constraint
  unfolding sort_by drop remove_fraction
  kept_soft c soft =
      let count = truncate (multiply (of_int (length soft)) (remove_fraction c.strategy)) in
      drop (if ltb (length soft) count then length soft else count) (sort_by constraint_less soft)

  unfoldable pub compress_constraints : Compressor → TaskContext → TaskContext × ℕ
  unfolding hard_of soft_of kept_soft
  compress_constraints c tc =
      let soft = soft_of tc.constraints in
      let kept = hard_of tc.constraints ++ kept_soft c soft in
      if nat_beq (length soft) 0
      then (tc, 0)
      else (record tc { constraints = kept }, length tc.constraints - length kept)

  -- The three steps of `Compress`, and the count again.
  unfoldable pub compress_steps : Compressor → TaskContext → TaskContext × CompressionStats
  unfolding compress_messages compress_file_states compress_constraints recalculate_tokens
  compress_steps c tc =
      let (tc1, messages) = compress_messages c tc in
      let (tc2, files) = compress_file_states c tc1 in
      let (tc3, constraints) = compress_constraints c tc2 in
      (
        recalculate_tokens tc3,
        record { messages = messages; file_states = files; constraints = constraints },
      )

  abbrev pub nothing_removed : CompressionStats
  nothing_removed = record { messages = 0; file_states = 0; constraints = 0 }

  abbrev pub budget_share : ℕ → TaskContext → F
  budget_share tokens tc = divide (of_int tokens) (of_int tc.token_budget)

  -- `Compress` of a context; `compress` is `none` where it returns the error for nil.
  unfoldable pub compress_context : Compressor → TaskContext → TaskContext × CompressionResult
  unfolding total_tokens remaining_budget is_budget_exceeded compress_steps
  compress_context c tc =
      let original = total_tokens tc in
      let (tc', removed) = compress_steps c tc in
      let compressed = total_tokens tc' in
      if is_budget_exceeded tc
      then (
        tc',
        record {
          original_tokens = original;
          compressed_tokens = compressed;
          tokens_removed = sub original compressed;
          items_removed = removed;
          budget_after = sub tc'.token_budget compressed;
          budget_used = budget_share compressed tc';
        },
      )
      else (
        tc,
        record {
          original_tokens = original;
          compressed_tokens = original;
          tokens_removed = 0;
          items_removed = nothing_removed;
          budget_after = remaining_budget tc;
          budget_used = budget_share original tc;
        },
      )

  unfoldable pub compress :
      Compressor → Option TaskContext → Option (TaskContext × CompressionResult)
  unfolding compress_context
  compress c none = none
  compress c (some tc) = some (compress_context c tc)

  -- The compressor of the loop of `CompressToBudget`.
  unfoldable pub harder : Compressor → Compressor
  harder c = record {
    strategy = aggressive;
    preserve_recent_messages = c.preserve_recent_messages / 2;
    preserve_recent_files = c.preserve_recent_files / 2;
  }

  abbrev pub add_stats : CompressionStats → CompressionStats → CompressionStats
  add_stats a b = record {
    messages = plus a.messages b.messages;
    file_states = plus a.file_states b.file_states;
    constraints = plus a.constraints b.constraints;
  }

  -- The loop, with the number of iterations that are left.
  unfoldable pub squeeze :
      Compressor
      → (target : ℕ) → ℕ
      → TaskContext × CompressionResult
      → TaskContext × CompressionResult
  unfolding harder compress_context total_tokens
  squeeze c target zero (tc, r) = (tc, r)
  squeeze c target (suc left) (tc, r) =
      let (tc', r2) = compress_context (harder c) tc in
      let rest = squeeze c target left (
        tc',
        record r {
          tokens_removed = plus r.tokens_removed r2.tokens_removed;
          items_removed = add_stats r.items_removed r2.items_removed;
        },
      ) in
      if slt target (total_tokens tc) then rest else (tc, r)

  unfoldable pub compress_to_budget :
      Compressor → Option TaskContext → ℕ → Option (TaskContext × CompressionResult)
  unfolding compress_context squeeze recalculate_tokens total_tokens
  compress_to_budget c none target = none
  compress_to_budget c (some tc) target =
      let goal = if sle target 0 then tc.token_budget else target in
      let (tc1, r) = squeeze c goal 5 (compress_context c tc) in
      let tc2 = recalculate_tokens tc1 in
      let compressed = total_tokens tc2 in
      some (
        tc2,
        record r {
          compressed_tokens = compressed;
          budget_after = sub tc2.token_budget compressed;
          budget_used = budget_share compressed tc2;
        },
      )
