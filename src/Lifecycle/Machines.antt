-- ===== src/Lifecycle/Machines.antt =====
-- The task and subtask state machines of internal/domain/statemachine.go, lines 513 to 702.
use cloud_agent_platform.Base.{
  ℕ, String, Bool, false, ◌||◌, Option, none, some, List, [], ◌∷◌, ◌==◌, string_comparable,
  if◌then◌else◌,
}
use cloud_agent_platform.Fsm.{
  Transition, StateMachine, Index, Error, param_validation, terminal_has_outgoing, nil_machine,
  new_state_machine_of, add_transition,
}
use cloud_agent_platform.Lifecycle.{
  TaskStatus, pending, dispatched, running, reviewing, confirming, completed, failed, cancelled,
  status_comparable,
}

abbrev pub TaskTransition : Type 0
TaskTransition = Transition TaskStatus String

abbrev pub TaskStateMachine : Type 0
TaskStateMachine = StateMachine TaskStatus String

abbrev row : TaskStatus → TaskStatus → String → TaskTransition
row from to event = record { from = from; to = to; event = event; guards = []; actions = [] }

abbrev pub task_state_machine_definition : List TaskTransition
task_state_machine_definition =
    row pending dispatched "Dispatch"
    ∷ row pending cancelled "Cancel"
    ∷ row dispatched running "StartExecution"
    ∷ row dispatched failed "NoAgentAvailable"
    ∷ row dispatched cancelled "Cancel"
    ∷ row running reviewing "CompleteExecution"
    ∷ row running completed "AutoComplete"
    ∷ row running failed "ExecutionFailed"
    ∷ row running confirming "RequestConfirmation"
    ∷ row running cancelled "Cancel"
    ∷ row reviewing completed "ReviewPassed"
    ∷ row reviewing running "ReviewFailedRetry"
    ∷ row reviewing failed "ReviewFailedFatal"
    ∷ row confirming running "UserApproved"
    ∷ row confirming failed "UserRejected"
    ∷ row confirming failed "ConfirmationTimeout"
    ∷ row confirming cancelled "Cancel"
    ∷ []

abbrev pub subtask_state_machine_definition : List TaskTransition
subtask_state_machine_definition =
    row pending dispatched "Assign"
    ∷ row pending cancelled "Cancel"
    ∷ row dispatched running "StartExecution"
    ∷ row dispatched failed "NoAgentAvailable"
    ∷ row dispatched cancelled "Cancel"
    ∷ row running reviewing "CompleteExecution"
    ∷ row running completed "AutoComplete"
    ∷ row running failed "ExecutionFailed"
    ∷ row running cancelled "Cancel"
    ∷ row reviewing completed "ReviewPassed"
    ∷ row reviewing running "ReviewFailedRetry"
    ∷ row reviewing failed "ReviewFailedFatal"
    ∷ []

-- The loop that registers the rows.
unfoldable pub register : List TaskTransition → TaskStateMachine → TaskStateMachine
unfolding add_transition
register [] sm = sm
register (t ∷ ts) sm = register ts (add_transition t.from t.to t.event sm).0

unfoldable pub build_task_state_machine : String → TaskStateMachine
unfolding register new_state_machine_of
build_task_state_machine entity_id =
    register task_state_machine_definition (new_state_machine_of "Task" entity_id pending)

unfoldable pub build_subtask_state_machine : String → TaskStateMachine
unfolding register new_state_machine_of
build_subtask_state_machine entity_id =
    register subtask_state_machine_definition (new_state_machine_of "Subtask" entity_id pending)

-- `sm.State = …; sm.Version = …`
abbrev pub at_state : TaskStatus → ℕ → TaskStateMachine → TaskStateMachine
at_state state version sm = record sm {
  aggregate = record (sm.aggregate) { state = state; version = version };
}

unfoldable pub has_key_from : TaskStatus → Index TaskStatus String → Bool
has_key_from state [] = false
has_key_from state (((from, event), idx) ∷ m) = from == state || has_key_from state m

unfoldable pub check_terminal :
    List TaskStatus → TaskStateMachine → Option (Error TaskStatus String)
unfolding has_key_from
check_terminal [] sm = none
check_terminal (terminal ∷ ts) sm =
    if has_key_from terminal sm.transitions_map
    then some (terminal_has_outgoing sm.aggregate.entity_type sm.aggregate.entity_id terminal)
    else check_terminal ts sm

unfoldable pub validate_state_machine : Option TaskStateMachine → Option (Error TaskStatus String)
unfolding check_terminal
validate_state_machine none = some nil_machine
validate_state_machine (some sm) =
    if sm.aggregate.entity_id == ""
    then some (param_validation "entity_id" "cannot be empty")
    else if sm.aggregate.entity_type == ""
    then some (param_validation "entity_type" "cannot be empty")
    else check_terminal (completed ∷ failed ∷ cancelled ∷ []) sm

unfoldable pub has_outgoing_transitions : TaskStatus → List TaskTransition → Bool
has_outgoing_transitions state [] = false
has_outgoing_transitions state (t ∷ ts) = t.from == state || has_outgoing_transitions state ts

abbrev pub all_task_states : List TaskStatus
all_task_states =
    pending ∷ dispatched ∷ running ∷ reviewing ∷ confirming ∷ completed ∷ failed ∷ cancelled ∷ []
