-- ===== src/Decompose/Saving.antt =====
-- `SaveSubtasks` of internal/orchestrator/decompose.go. The repository is the answer of its `Create`
-- for each subtask.
use cloud_agent_platform.Base.{String, Option, none, some, List, [], ◌∷◌, ◌≡◌, refl, arith}
use cloud_agent_platform.Lifecycle.Entity.{Subtask}

-- The subtasks that were created, and the subtask that failed, if one did, with its error.
pub record SaveResult : Type 0 where
  pub created : List Subtask
  pub failed : Option (String × String)

unfoldable pub save_subtasks : (Subtask → Option String) → List Subtask → SaveResult
save_subtasks create [] = record { created = []; failed = none }
save_subtasks create (st ∷ sts) =
    let rest = save_subtasks create sts in
    elim (create st) [
      | none ↦ record { created = st ∷ rest.created; failed = rest.failed }
      | some err ↦ record { created = []; failed = some (st.id, err) }
    ]

-- If no subtask is refused, every one was created, in order.
save_subtasks_lem :
    (create : Subtask → Option String) (sts : List Subtask)
    → ((save_subtasks create sts).failed ≡ none)
    → (save_subtasks create sts).created ≡ sts
unfolding save_subtasks
save_subtasks_lem create [] h = refl
save_subtasks_lem create (st ∷ sts) h = ground (arith, save_subtasks_lem create sts)
