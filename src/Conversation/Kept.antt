-- ===== src/Conversation/Kept.antt =====
-- What no compression removes.
use cloud_agent_platform.Base.{
  ℕ, zero, suc, ◌-◌, Bool, true, false, some, List, [], ◌∷◌, ◌++◌, ◌≡◌, refl, arith, ◌∙◌,
  Bool-cases, inl, inr, leb, ltb, length, nat_beq, if◌then◌else◌,
}
use cloud_agent_platform.Base.Int64.{slt, sle}
use cloud_agent_platform.Base.Float.{Float}
use cloud_agent_platform.Sorting.{insert_by, sort_by, drop}
use cloud_agent_platform.Conversation.Parts.{
  Constraint, FileState, created, deleted, ConversationMessage, user, system, is_hard,
}
use cloud_agent_platform.Conversation.{
  TaskContext, hard_of, get_hard_constraints, recalculate_tokens, is_budget_exceeded, total_tokens,
}
use cloud_agent_platform.Conversation.Compress.{
  Compressor, CompressionResult, constraint_less, message_less, file_less, keeps_message,
  keeps_file, soft_of, kept_soft, remove_fraction, marked_messages, marked_files, compress_messages,
  compress_file_states, compress_constraints, compress_steps, compress_context, squeeze, harder,
  compress_to_budget,
}
use cloud_agent_platform.Conversation.Removal.{IsApart, passed, passed-removal, IsApart-unmarked}

hard_of-append :
    (xs ys : List Constraint) → hard_of ys ≡ [] → hard_of (hard_of xs ++ ys) ≡ hard_of xs
unfolding hard_of
hard_of-append [] ys h = h
hard_of-append (x ∷ xs) ys h = ground (arith, hard_of-append xs ys h)

hard_of-insert_by :
    (x : Constraint) (xs : List Constraint)
    → is_hard x ≡ false
    → hard_of xs ≡ []
    → hard_of (insert_by constraint_less x xs) ≡ []
unfolding hard_of insert_by
hard_of-insert_by x [] s h = rw s refl
hard_of-insert_by x (y ∷ ys) s h = ground (arith, hard_of-insert_by x ys s)

hard_of-soft : (xs : List Constraint) → hard_of (sort_by constraint_less (soft_of xs)) ≡ []
unfolding hard_of soft_of sort_by
hard_of-soft [] = refl
hard_of-soft (x ∷ xs) =
    ground (arith, hard_of-soft xs, hard_of-insert_by x (sort_by constraint_less (soft_of xs)))

hard_of-drop : (n : ℕ) (xs : List Constraint) → hard_of xs ≡ [] → hard_of (drop n xs) ≡ []
unfolding hard_of drop
hard_of-drop zero xs h = h
hard_of-drop (suc n) [] h = refl
hard_of-drop (suc n) (x ∷ xs) h = ground (arith, hard_of-drop n xs)

-- The messages of the system and the user messages of a priority below 5.
abbrev pub is_protected : ConversationMessage → Bool
is_protected m = elim m.role [ system ↦ true | user ↦ slt m.priority 5 | _ ↦ false ]

-- The states of files that were created or deleted.
abbrev pub is_protected_file : FileState → Bool
is_protected_file f = elim f.change_type [ deleted ↦ true | created ↦ true | _ ↦ false ]

-- The messages and file states that no compression removes.
abbrev pub protected_messages : TaskContext → List ConversationMessage
protected_messages tc = passed (λ m. m.id) is_protected message_less tc.messages

abbrev pub protected_files : TaskContext → List FileState
protected_files tc = passed (λ f. f.id) is_protected_file file_less tc.file_states

-- No protected message or file state shares its identifier with one that is not protected.
pub record AreApart (tc : TaskContext) : Type 0 where
  pub messages : IsApart (λ m. m.id) is_protected message_less tc.messages
  pub files : IsApart (λ f. f.id) is_protected_file file_less tc.file_states

-- From a context to another, nothing that is protected is lost.
pub record Keeps (tc tc' : TaskContext) : Type 0 where
  pub hard : get_hard_constraints tc' ≡ get_hard_constraints tc
  pub messages : protected_messages tc' ≡ protected_messages tc
  pub files : protected_files tc' ≡ protected_files tc

Keeps-self : (tc : TaskContext) → Keeps tc tc
Keeps-self tc = record { hard = refl; messages = refl; files = refl }

Keeps-trans : (a b c : TaskContext) → Keeps a b → Keeps b c → Keeps a c
Keeps-trans a b c k l = record {
  hard = l.hard ∙ k.hard;
  messages = l.messages ∙ k.messages;
  files = l.files ∙ k.files;
}

messages_step :
    (c : Compressor) (tc : TaskContext)
    → AreApart tc
    → Keeps tc (compress_messages c tc).0 × AreApart (compress_messages c tc).0
unfolding compress_messages recalculate_tokens marked_messages get_hard_constraints
messages_step c tc a = elim (Bool-cases (leb (length tc.messages) c.preserve_recent_messages)) [
  | inl e ↦ rw e (Keeps-self tc, a)
  | inr e ↦ rw e (
    record {
      hard = refl;
      messages =
          passed-removal (λ m. m.id) keeps_message message_less
            (length tc.messages - c.preserve_recent_messages) tc.messages a.messages;
      files = refl;
    },
    record {
      messages =
          IsApart-unmarked (λ m. m.id) keeps_message message_less (marked_messages c tc.messages)
            tc.messages a.messages;
      files = a.files;
    },
  )
]

files_step :
    (c : Compressor) (tc : TaskContext)
    → AreApart tc
    → Keeps tc (compress_file_states c tc).0 × AreApart (compress_file_states c tc).0
unfolding compress_file_states marked_files get_hard_constraints
files_step c tc a = elim (Bool-cases (leb (length tc.file_states) c.preserve_recent_files)) [
  | inl e ↦ rw e (Keeps-self tc, a)
  | inr e ↦ rw e (
    record {
      hard = refl;
      messages = refl;
      files =
          passed-removal (λ f. f.id) keeps_file file_less
            (length tc.file_states - c.preserve_recent_files) tc.file_states a.files;
    },
    record {
      messages = a.messages;
      files =
          IsApart-unmarked (λ f. f.id) keeps_file file_less (marked_files c tc.file_states)
            tc.file_states a.files;
    },
  )
]

module _ (fl : Float) where
  hard_of-kept_soft :
      (c : Compressor) (cs : List Constraint) → hard_of (kept_soft fl c (soft_of cs)) ≡ []
  unfolding kept_soft
  hard_of-kept_soft c cs =
      let count =
        fl.truncate
          (fl.multiply (fl.of_int (length (soft_of cs))) (remove_fraction fl c.strategy)) in
      hard_of-drop (if ltb (length (soft_of cs)) count then length (soft_of cs) else count)
        (sort_by constraint_less (soft_of cs)) (hard_of-soft cs)

  constraints_step :
      (c : Compressor) (tc : TaskContext)
      → AreApart tc
      → Keeps tc (compress_constraints fl c tc).0 × AreApart (compress_constraints fl c tc).0
  unfolding compress_constraints get_hard_constraints kept_soft
  constraints_step c tc a = elim (Bool-cases (nat_beq (length (soft_of tc.constraints)) 0)) [
    | inl e ↦ rw e (Keeps-self tc, a)
    | inr e ↦ rw e (
      record {
        hard =
            hard_of-append tc.constraints (kept_soft fl c (soft_of tc.constraints))
              (hard_of-kept_soft c tc.constraints);
        messages = refl;
        files = refl;
      },
      record { messages = a.messages; files = a.files },
    )
  ]

  steps-Keeps :
      (c : Compressor) (tc : TaskContext)
      → AreApart tc
      → Keeps tc (compress_steps fl c tc).0 × AreApart (compress_steps fl c tc).0
  unfolding compress_steps recalculate_tokens get_hard_constraints
  steps-Keeps c tc a =
      let tc1 = (compress_messages c tc).0 in
      let tc2 = (compress_file_states c tc1).0 in
      let (k1, a1) = messages_step c tc a in
      let (k2, a2) = files_step c tc1 a1 in
      let (k3, a3) = constraints_step c tc2 a2 in
      let k = Keeps-trans tc tc2 _ (Keeps-trans tc tc1 tc2 k1 k2) k3 in
      (
        record { hard = k.hard; messages = k.messages; files = k.files },
        record { messages = a3.messages; files = a3.files },
      )

  context-Keeps :
      (c : Compressor) (tc : TaskContext)
      → AreApart tc
      → Keeps tc (compress_context fl c tc).0 × AreApart (compress_context fl c tc).0
  unfolding compress_context
  context-Keeps c tc a = elim (Bool-cases (is_budget_exceeded tc)) [
    | inl e ↦ rw (e, compress_context) (steps-Keeps c tc a)
    | inr e ↦ rw (e, compress_context) (Keeps-self tc, a)
  ]

  squeeze-Keeps :
      (c : Compressor) (target n : ℕ) (tc : TaskContext) (r : CompressionResult fl)
      → AreApart tc
      → Keeps tc (squeeze fl c target n (tc, r)).0
  unfolding squeeze
  squeeze-Keeps c target zero tc r a = Keeps-self tc
  squeeze-Keeps c target (suc n) tc r a =
      let (k, a1) = context-Keeps (harder fl c) tc a in
      elim (Bool-cases (slt target (total_tokens tc))) [
        | inl e ↦ rw e (Keeps-trans tc _ _ k (squeeze-Keeps c target n _ _ a1))
        | inr e ↦ rw e (Keeps-self tc)
      ]

  -- `CompressToBudget` returns for every context, with all hard constraints, all system messages, all
  -- user messages of a priority below 5 and all created or deleted file states in their order, if
  -- none of those shares its identifier with one that is not protected.
  pub compress_to_budget-Keeps :
      (c : Compressor) (tc : TaskContext) (target : ℕ)
      → AreApart tc
      → (tc' : TaskContext) × (r : CompressionResult fl) × (compress_to_budget fl c (some tc) target
          ≡ some (tc', r))
        × Keeps tc tc'
  unfolding compress_to_budget recalculate_tokens get_hard_constraints
  compress_to_budget-Keeps c tc target a =
      let (k, a1) = context-Keeps c tc a in
      let goal = if sle target 0 then tc.token_budget else target in
      let done = Keeps-trans tc _ _ k (squeeze-Keeps c goal 5 _ (compress_context fl c tc).1 a1) in
      (_, _, refl, record { hard = done.hard; messages = done.messages; files = done.files })
