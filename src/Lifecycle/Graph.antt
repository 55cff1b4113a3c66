-- ===== src/Lifecycle/Graph.antt =====
-- The transition diagrams of tasks and subtasks: the machines that the code builds hold exactly the
-- declared rows, and what the rows allow.
use cloud_agent_platform.Base.{
  ◌≡◌, refl, ◌⊎◌, inl, inr, String, true, false, not, ◌||◌, none, some, [], ◌∷◌, arith, ◌==◌,
  string_comparable, All, is_some, Bool-cases,
}
use cloud_agent_platform.Fsm.Table.{find_transition}
use cloud_agent_platform.Lifecycle.{
  TaskStatus, pending, dispatched, running, reviewing, confirming, completed, failed, cancelled,
  status_comparable, is_terminal,
}
use cloud_agent_platform.Lifecycle.Machines.{
  TaskTransition, TaskStateMachine, task_state_machine_definition, subtask_state_machine_definition,
  build_task_state_machine, build_subtask_state_machine, check_terminal, validate_state_machine,
  has_outgoing_transitions,
}

validate_none :
    (sm : TaskStateMachine)
    → (sm.aggregate.entity_id == "") ≡ false
    → (sm.aggregate.entity_type == "") ≡ false
    → check_terminal (completed ∷ failed ∷ cancelled ∷ []) sm ≡ none
    → validate_state_machine (some sm) ≡ none
unfolding validate_state_machine
validate_none sm h k l = rw (h, k) l

-- Both machines that the code builds pass `ValidateStateMachine`, under any non-empty identifier.
pub validate_built :
    (id : String)
    → (id == "") ≡ false
    → (validate_state_machine (some (build_task_state_machine id)) ≡ none)
      × (validate_state_machine (some (build_subtask_state_machine id)) ≡ none)
unfolding build_task_state_machine build_subtask_state_machine check_terminal
validate_built id h = (
  validate_none (build_task_state_machine id) h refl refl,
  validate_none (build_subtask_state_machine id) h refl refl,
)

-- A state of the task machine has an outgoing transition exactly if it is not terminal.
task_outgoing :
    (s : TaskStatus)
    → has_outgoing_transitions s task_state_machine_definition ≡ not (is_terminal s)
unfolding has_outgoing_transitions is_terminal
task_outgoing s = ground arith

pub subtask_outgoing :
    (s : TaskStatus)
    → has_outgoing_transitions s subtask_state_machine_definition
      ≡ not (is_terminal s || s == confirming)
unfolding has_outgoing_transitions is_terminal
subtask_outgoing s = ground arith

-- One step of the task diagram, by the event that makes it.
infix 40 ◌⟶◌ ◌⟶*◌
pub data ◌⟶◌ (from : TaskStatus) (to : TaskStatus) : Type 0 where
  by :
      (event : String) (t : TaskTransition)
      → find_transition from event task_state_machine_definition ≡ some t
      → t.to ≡ to
      → from ⟶ to

pub data ◌⟶*◌ (from : TaskStatus) : TaskStatus → Type 0 where
  here : from ⟶* from
  then : {mid to : TaskStatus} → from ⟶* mid → mid ⟶ to → from ⟶* to

to_running : pending ⟶* running
unfolding find_transition
to_running = then (then here (by "Dispatch" _ refl refl)) (by "StartExecution" _ refl refl)

-- Every status can be reached from `pending`.
pub pending-⟶* : (s : TaskStatus) → pending ⟶* s
unfolding find_transition
pending-⟶* pending = here
pending-⟶* dispatched = then here (by "Dispatch" _ refl refl)
pending-⟶* running = to_running
pending-⟶* reviewing = then to_running (by "CompleteExecution" _ refl refl)
pending-⟶* confirming = then to_running (by "RequestConfirmation" _ refl refl)
pending-⟶* completed = then to_running (by "AutoComplete" _ refl refl)
pending-⟶* failed = then to_running (by "ExecutionFailed" _ refl refl)
pending-⟶* cancelled = then to_running (by "Cancel" _ refl refl)

-- The task can be completed from every status that is not terminal.
pub ⟶*-completed : (s : TaskStatus) → is_terminal s ≡ false → s ⟶* completed
unfolding find_transition is_terminal
⟶*-completed pending h = then to_running (by "AutoComplete" _ refl refl)
⟶*-completed dispatched h =
    then (then here (by "StartExecution" _ refl refl)) (by "AutoComplete" _ refl refl)
⟶*-completed running h = then here (by "AutoComplete" _ refl refl)
⟶*-completed reviewing h = then here (by "ReviewPassed" _ refl refl)
⟶*-completed confirming h =
    then (then here (by "UserApproved" _ refl refl)) (by "AutoComplete" _ refl refl)
⟶*-completed _ h = cc

pub terminal_stuck :
    (s : TaskStatus) (e : String)
    → is_terminal s ≡ true
    → find_transition s e task_state_machine_definition ≡ none
unfolding find_transition is_terminal
terminal_stuck completed e h = refl
terminal_stuck failed e h = refl
terminal_stuck cancelled e h = refl
terminal_stuck _ e h = cc

cancellable :
    (s : TaskStatus)
    → is_some (find_transition s "Cancel" task_state_machine_definition)
      ≡ (s == pending || s == dispatched || s == running || s == confirming)
unfolding find_transition
cancellable pending = refl
cancellable _ = refl

terminal_no_step : {s t : TaskStatus} → is_terminal s ≡ true → ¬ (s ⟶ t)
terminal_no_step {s} h (by event row found to) = cc (terminal_stuck s event h)

-- The task diagram: every status is reached from `pending`, the terminal ones have no way out, and
-- all others have a way to `completed`.
pub task_diagram :
    (s : TaskStatus)
    → (pending ⟶* s)
      × ((is_terminal s ≡ true) × ((t : TaskStatus) → ¬ (s ⟶ t))
          ⊎ (is_terminal s ≡ false) × (s ⟶* completed))
task_diagram s = elim (Bool-cases (is_terminal s)) [
  | inl h ↦ (pending-⟶* s, inl (h, λ t. terminal_no_step h))
  | inr h ↦ (pending-⟶* s, inr (h, ⟶*-completed s h))
]

-- A subtask moves only along edges of the task diagram, whatever the names of its events.
pub subtask_row_⟶ : All (λ r. r.from ⟶ r.to) subtask_state_machine_definition
unfolding find_transition
subtask_row_⟶ = (
  by "Dispatch" _ refl refl,
  (
    by "Cancel" _ refl refl,
    (
      by "StartExecution" _ refl refl,
      (
        by "NoAgentAvailable" _ refl refl,
        (
          by "Cancel" _ refl refl,
          (
            by "CompleteExecution" _ refl refl,
            (
              by "AutoComplete" _ refl refl,
              (
                by "ExecutionFailed" _ refl refl,
                (
                  by "Cancel" _ refl refl,
                  (
                    by "ReviewPassed" _ refl refl,
                    (by "ReviewFailedRetry" _ refl refl, (by "ReviewFailedFatal" _ refl refl, tt)),
                  ),
                ),
              ),
            ),
          ),
        ),
      ),
    ),
  ),
)
