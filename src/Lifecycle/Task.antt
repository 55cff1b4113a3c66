-- ===== src/Lifecycle/Task.antt =====
-- The methods of `Task` in internal/domain/entity.go.
pub mod Laws
pub mod Marks
pub mod Runs
use cloud_agent_platform.Base.{ℕ, String, Bool, Option, none, some, string_comparable}
use cloud_agent_platform.Fsm.{Fired, trigger, can_transition}
use cloud_agent_platform.Lifecycle.{TaskStatus, status_comparable}
use cloud_agent_platform.Lifecycle.Entity.{Task, TaskError}
use cloud_agent_platform.Lifecycle.Machines.{build_task_state_machine, at_state}

-- `if err != nil { return err }`, then the two assignments.
abbrev pub take_result : Task → Fired TaskStatus String → Task × Option TaskError
take_result t f = elim f.error [
  | some err ↦ (t, some err)
  | none ↦ (record t { status = f.state; version = f.machine.aggregate.version }, none)
]

unfoldable pub transition_to : String → Task → Option (Task × Option TaskError)
transition_to event t =
    elim (trigger event (at_state t.status t.version (build_task_state_machine t.id))) [
      | none ↦ none
      | some f ↦ some (take_result t f)
    ]

unfoldable pub can_transition_to : String → Task → Bool
can_transition_to event t = can_transition event (
    at_state t.status (build_task_state_machine t.id).aggregate.version
      (build_task_state_machine t.id))

unfoldable pub mark_started : Task → Option (Task × Option TaskError)
mark_started t = transition_to "StartExecution" t

unfoldable pub mark_completed : ℕ → Task → Option (Task × Option TaskError)
mark_completed now t = transition_to "ReviewPassed" (record t { completed_at = some now })

unfoldable pub mark_failed : ℕ → Task → Option (Task × Option TaskError)
mark_failed now t = transition_to "ExecutionFailed" (record t { completed_at = some now })

unfoldable pub mark_cancelled : Task → Option (Task × Option TaskError)
mark_cancelled t = transition_to "Cancel" t
