-- ===== src/Lifecycle/Subtask.antt =====
-- The methods of `Subtask` in internal/domain/entity.go.
pub mod Laws
pub mod Marks
use cloud_agent_platform.Base.{ℕ, String, Bool, Option, none, some, string_comparable}
use cloud_agent_platform.Fsm.{Fired, trigger, can_transition}
use cloud_agent_platform.Lifecycle.{TaskStatus, status_comparable}
use cloud_agent_platform.Lifecycle.Entity.{Subtask, TaskError}
use cloud_agent_platform.Lifecycle.Machines.{build_subtask_state_machine, at_state}

abbrev pub take_result : Subtask → Fired TaskStatus String → Subtask × Option TaskError
take_result t f = elim f.error [
  | some err ↦ (t, some err)
  | none ↦ (record t { status = f.state; version = f.machine.aggregate.version }, none)
]

unfoldable pub transition_to : String → Subtask → Option (Subtask × Option TaskError)
transition_to event t =
    elim (trigger event (at_state t.status t.version (build_subtask_state_machine t.id))) [
      | none ↦ none
      | some f ↦ some (take_result t f)
    ]

unfoldable pub can_transition_to : String → Subtask → Bool
can_transition_to event t = can_transition event (
    at_state t.status (build_subtask_state_machine t.id).aggregate.version
      (build_subtask_state_machine t.id))

unfoldable pub assign : String → Subtask → Option (Subtask × Option TaskError)
assign agent_instance_id t =
    transition_to "Assign" (record t { agent_instance = some agent_instance_id })

unfoldable pub mark_started : ℕ → Subtask → Option (Subtask × Option TaskError)
mark_started now t = transition_to "StartExecution" (record t { started_at = some now })

unfoldable pub mark_completed : String → ℕ → Subtask → Option (Subtask × Option TaskError)
mark_completed summary now t =
    transition_to "ReviewPassed" (record t { summary = some summary; completed_at = some now })

unfoldable pub mark_failed : ℕ → Subtask → Option (Subtask × Option TaskError)
mark_failed now t = transition_to "ExecutionFailed" (record t { completed_at = some now })

unfoldable pub mark_cancelled : Subtask → Option (Subtask × Option TaskError)
mark_cancelled t = transition_to "Cancel" t
