-- ===== src/Conversation/Counted.antt =====
-- The count of tokens of a context under all its operations.
use cloud_agent_platform.Base.{
  ℕ, String, none, some, List, [], ◌∷◌, ◌++◌, ◌≡◌, refl, Bool-cases, inl, inr, Option, ap, sym, ◌∙◌,
}
use cloud_agent_platform.Base.Float.{Float}
use cloud_agent_platform.Conversation.Parts.{Constraint, FileState, ConversationMessage, plus}
use cloud_agent_platform.Conversation.{
  TaskContext, new_task_context, set_token_budget, add_constraint, add_message, add_file_state,
  add_message_tokens, recalculate_tokens, is_budget_exceeded,
}
use cloud_agent_platform.Conversation.Compress.{
  Compressor, CompressionResult, compress_steps, compress_context, compress_to_budget,
}

-- The count is that of the messages.
abbrev pub IsCounted : TaskContext → Type 0
IsCounted tc = tc.tokens_used ≡ add_message_tokens 0 tc.messages

-- The calls that change a context.
pub data Operation : Type 0 where
  constraint : (now : ℕ) → Constraint → Operation
  message : (now : ℕ) → ConversationMessage → Operation
  file_state : (now : ℕ) → FileState → Operation
  budget : ℕ → Operation
  recalculation : Operation
  compression : Compressor → Operation
  compression_to : Compressor → (target : ℕ) → Operation

add_message_tokens-append :
    (n : ℕ) (ms : List ConversationMessage) (m : ConversationMessage)
    → add_message_tokens n (ms ++ m ∷ []) ≡ plus (add_message_tokens n ms) m.token_count
unfolding add_message_tokens
add_message_tokens-append n [] m = refl
add_message_tokens-append n (x ∷ ms) m = add_message_tokens-append (plus n x.token_count) ms m

module _ (fl : Float) where
  abbrev after : Option (TaskContext × CompressionResult fl) → TaskContext → TaskContext
  after none tc = tc
  after (some (tc', r)) tc = tc'

  unfoldable pub apply : Operation → TaskContext → TaskContext
  unfolding add_constraint add_message add_file_state set_token_budget recalculate_tokens
      compress_context compress_to_budget
  apply (constraint now c) tc = add_constraint now c tc
  apply (message now m) tc = add_message now m tc
  apply (file_state now f) tc = add_file_state now f tc
  apply (budget n) tc = set_token_budget n tc
  apply recalculation tc = recalculate_tokens tc
  apply (compression c) tc = (compress_context fl c tc).0
  apply (compression_to c target) tc = after (compress_to_budget fl c (some tc) target) tc

  unfoldable pub run : List Operation → TaskContext → TaskContext
  unfolding apply
  run [] tc = tc
  run (o ∷ os) tc = run os (apply o tc)

  apply-IsCounted : (o : Operation) (tc : TaskContext) → IsCounted tc → IsCounted (apply o tc)
  unfolding apply recalculate_tokens compress_steps compress_context compress_to_budget add_message
      add_constraint add_file_state set_token_budget
  apply-IsCounted (constraint now c) tc h = h
  apply-IsCounted (message now m) tc h =
      ap (λ t. plus t m.token_count) h ∙ sym (add_message_tokens-append 0 tc.messages m)
  apply-IsCounted (file_state now f) tc h = h
  apply-IsCounted (budget n) tc h = h
  apply-IsCounted recalculation tc h = refl
  apply-IsCounted (compression c) tc h = elim (Bool-cases (is_budget_exceeded tc)) [
    | inl e ↦ rw (e, apply, compress_context) refl
    | inr e ↦ rw (e, apply, compress_context) h
  ]
  apply-IsCounted (compression_to c target) tc h = refl

  run_from : (os : List Operation) (tc : TaskContext) → IsCounted tc → IsCounted (run os tc)
  unfolding run
  run_from [] tc h = h
  run_from (o ∷ os) tc h = run_from os (apply o tc) (apply-IsCounted o tc h)

  -- After any calls on a new context, its count is the sum of the counts of the messages that it
  -- holds, in 64 bits.
  pub run-IsCounted :
      (os : List Operation) (ulid task_id goal : String) (now : ℕ)
      → IsCounted (run os (new_task_context ulid now task_id goal))
  unfolding new_task_context add_message_tokens
  run-IsCounted os ulid task_id goal now = run_from os (new_task_context ulid now task_id goal) refl
