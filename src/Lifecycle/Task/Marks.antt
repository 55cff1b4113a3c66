-- ===== src/Lifecycle/Task/Marks.antt =====
-- The `Mark…` methods of `Task`.
use cloud_agent_platform.Base.{
  ℕ, ◌≡◌, refl, ap, ◌∙◌, String, Bool, ◌||◌, Option, none, some, ◌==◌, string_comparable,
  if◌then◌else◌,
}
use cloud_agent_platform.Base.Int64.{inc}
use cloud_agent_platform.Fsm.Table.{find_transition}
use cloud_agent_platform.Lifecycle.{
  TaskStatus, pending, dispatched, running, reviewing, confirming, completed, failed, cancelled,
  status_comparable,
}
use cloud_agent_platform.Lifecycle.Entity.{Task, TaskError}
use cloud_agent_platform.Lifecycle.Machines.{task_state_machine_definition}
use cloud_agent_platform.Lifecycle.Task.{mark_started, mark_completed, mark_failed, mark_cancelled}
use cloud_agent_platform.Lifecycle.Task.Laws.{move, missing, transition_to_lem}

-- A move to `to` if the test holds, and the refusal otherwise.
abbrev pub move_if : Bool → TaskStatus → String → Task → Task × Option TaskError
move_if test to event t =
    if test
    then (record t { status = to; version = inc t.version }, none)
    else (t, some (missing event t))

move-start :
    (t : Task) (s : TaskStatus)
    → move t "StartExecution" (find_transition s "StartExecution" task_state_machine_definition)
      ≡ move_if (s == dispatched) running "StartExecution" t
unfolding find_transition
move-start t pending = refl
move-start t _ = refl

move-passed :
    (t : Task) (s : TaskStatus)
    → move t "ReviewPassed" (find_transition s "ReviewPassed" task_state_machine_definition)
      ≡ move_if (s == reviewing) completed "ReviewPassed" t
unfolding find_transition
move-passed t pending = refl
move-passed t _ = refl

move-exec_failed :
    (t : Task) (s : TaskStatus)
    → move t "ExecutionFailed" (find_transition s "ExecutionFailed" task_state_machine_definition)
      ≡ move_if (s == running) failed "ExecutionFailed" t
unfolding find_transition
move-exec_failed t pending = refl
move-exec_failed t _ = refl

move-cancel :
    (t : Task) (s : TaskStatus)
    → move t "Cancel" (find_transition s "Cancel" task_state_machine_definition)
      ≡ move_if
          (s == pending || s == dispatched || s == running || s == confirming)
          cancelled
          "Cancel"
          t
unfolding find_transition
move-cancel t pending = refl
move-cancel t _ = refl

-- The four methods on every task. Each succeeds from the states that have its event, and if it
-- fails the status and the version stay; but `MarkCompleted` and `MarkFailed` set the completion time
-- before they try, so a refused call leaves a completion time on a task that goes on, and
-- `MarkStarted` never sets the start time.
pub marks_lem :
    (now : ℕ) (t : Task)
    → let stamped = record t { completed_at = some now } in
      (mark_started t ≡ some (move_if (t.status == dispatched) running "StartExecution" t))
      × (mark_completed now t
          ≡ some (move_if (t.status == reviewing) completed "ReviewPassed" stamped))
      × (mark_failed now t ≡ some (move_if (t.status == running) failed "ExecutionFailed" stamped))
      × (mark_cancelled t
          ≡ some (
              move_if
                (t.status == pending
                  || t.status == dispatched
                  || t.status == running
                  || t.status == confirming)
                cancelled
                "Cancel"
                t))
unfolding mark_started mark_completed mark_failed mark_cancelled
marks_lem now t =
    let stamped = record t { completed_at = some now } in
    (
      transition_to_lem "StartExecution" t ∙ ap some (move-start t t.status),
      transition_to_lem "ReviewPassed" stamped ∙ ap some (move-passed stamped t.status),
      transition_to_lem "ExecutionFailed" stamped ∙ ap some (move-exec_failed stamped t.status),
      transition_to_lem "Cancel" t ∙ ap some (move-cancel t t.status),
    )
