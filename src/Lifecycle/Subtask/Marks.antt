-- ===== src/Lifecycle/Subtask/Marks.antt =====
-- The `Mark…` methods of `Subtask`.
use cloud_agent_platform.Base.{
  ℕ, ◌≡◌, refl, ap, ◌∙◌, String, Bool, ◌||◌, Option, none, some, ◌==◌, string_comparable,
  if◌then◌else◌,
}
use cloud_agent_platform.Base.Int64.{inc}
use cloud_agent_platform.Fsm.Table.{find_transition}
use cloud_agent_platform.Lifecycle.{
  TaskStatus, pending, dispatched, running, reviewing, completed, failed, cancelled,
  status_comparable,
}
use cloud_agent_platform.Lifecycle.Entity.{Subtask, TaskError}
use cloud_agent_platform.Lifecycle.Machines.{subtask_state_machine_definition}
use cloud_agent_platform.Lifecycle.Subtask.{
  assign, mark_started, mark_completed, mark_failed, mark_cancelled,
}
use cloud_agent_platform.Lifecycle.Subtask.Laws.{move, missing, transition_to_lem}

-- A move to `to` if the test holds, and the refusal otherwise.
abbrev pub move_if : Bool → TaskStatus → String → Subtask → Subtask × Option TaskError
move_if test to event t =
    if test
    then (record t { status = to; version = inc t.version }, none)
    else (t, some (missing event t))

move-start :
    (t : Subtask) (s : TaskStatus)
    → move t "StartExecution" (find_transition s "StartExecution" subtask_state_machine_definition)
      ≡ move_if (s == dispatched) running "StartExecution" t
unfolding find_transition
move-start t pending = refl
move-start t _ = refl

move-passed :
    (t : Subtask) (s : TaskStatus)
    → move t "ReviewPassed" (find_transition s "ReviewPassed" subtask_state_machine_definition)
      ≡ move_if (s == reviewing) completed "ReviewPassed" t
unfolding find_transition
move-passed t pending = refl
move-passed t _ = refl

move-exec_failed :
    (t : Subtask) (s : TaskStatus)
    → move t "ExecutionFailed"
        (find_transition s "ExecutionFailed" subtask_state_machine_definition)
      ≡ move_if (s == running) failed "ExecutionFailed" t
unfolding find_transition
move-exec_failed t pending = refl
move-exec_failed t _ = refl

move-assign :
    (t : Subtask) (s : TaskStatus)
    → move t "Assign" (find_transition s "Assign" subtask_state_machine_definition)
      ≡ move_if (s == pending) dispatched "Assign" t
unfolding find_transition
move-assign t pending = refl
move-assign t _ = refl

move-cancel :
    (t : Subtask) (s : TaskStatus)
    → move t "Cancel" (find_transition s "Cancel" subtask_state_machine_definition)
      ≡ move_if (s == pending || s == dispatched || s == running) cancelled "Cancel" t
unfolding find_transition
move-cancel t pending = refl
move-cancel t _ = refl

-- The five methods on every subtask. Each succeeds from the states that have its event, and if it
-- fails the status and the version stay; but the agent instance, the times and the summary are set
-- before the transition is tried, so a refused call leaves them on the subtask.
pub subtask_marks_lem :
    (agent summary : String) (now : ℕ) (t : Subtask)
    → let given = record t { agent_instance = some agent } in
      let begun = record t { started_at = some now } in
      let summed = record t { summary = some summary; completed_at = some now } in
      let stamped = record t { completed_at = some now } in
      (assign agent t ≡ some (move_if (t.status == pending) dispatched "Assign" given))
      × (mark_started now t
          ≡ some (move_if (t.status == dispatched) running "StartExecution" begun))
      × (mark_completed summary now t
          ≡ some (move_if (t.status == reviewing) completed "ReviewPassed" summed))
      × (mark_failed now t ≡ some (move_if (t.status == running) failed "ExecutionFailed" stamped))
      × (mark_cancelled t
          ≡ some (
              move_if
                (t.status == pending || t.status == dispatched || t.status == running)
                cancelled
                "Cancel"
                t))
unfolding assign mark_started mark_completed mark_failed mark_cancelled
subtask_marks_lem agent summary now t =
    let given = record t { agent_instance = some agent } in
    let begun = record t { started_at = some now } in
    let summed = record t { summary = some summary; completed_at = some now } in
    let stamped = record t { completed_at = some now } in
    (
      transition_to_lem "Assign" given ∙ ap some (move-assign given t.status),
      transition_to_lem "StartExecution" begun ∙ ap some (move-start begun t.status),
      transition_to_lem "ReviewPassed" summed ∙ ap some (move-passed summed t.status),
      transition_to_lem "ExecutionFailed" stamped ∙ ap some (move-exec_failed stamped t.status),
      transition_to_lem "Cancel" t ∙ ap some (move-cancel t t.status),
    )
