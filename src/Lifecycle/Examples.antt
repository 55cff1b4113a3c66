-- ===== src/Lifecycle/Examples.antt =====
-- The theorems of tasks and subtasks at concrete ones.
use cloud_agent_platform.Base.{
  ◌≡◌, refl, ◌⊎◌, String, Bool, true, false, not, ◌||◌, Option, some, List, [], ◌∷◌, ◌==◌,
  string_comparable, contains, is_some,
}
use cloud_agent_platform.Base.Int64.{inc}
use cloud_agent_platform.Fsm.{trigger}
use cloud_agent_platform.Lifecycle.{
  TaskStatus, pending, dispatched, running, reviewing, confirming, completed, failed, cancelled,
  coding, status_comparable, is_terminal,
}
use cloud_agent_platform.Lifecycle.Entity.{Task, Subtask, TaskError, new_task, new_subtask}
use cloud_agent_platform.Lifecycle.Machines.{build_task_state_machine}
use cloud_agent_platform.Lifecycle.Graph.{◌⟶◌, ◌⟶*◌, task_diagram}
use cloud_agent_platform.Lifecycle.Task.{transition_to, can_transition_to}
use cloud_agent_platform.Lifecycle.Task.Laws.{transition_to-can}
use cloud_agent_platform.Lifecycle.Task.Runs.{run, completed_needs}
use cloud_agent_platform.Lifecycle.Task.Marks.{move_if, marks_lem}
use cloud_agent_platform.Lifecycle.Task as TaskMethods
use cloud_agent_platform.Lifecycle.Subtask as SubtaskMethods
use cloud_agent_platform.Lifecycle.Subtask.Laws.{subtask_transition_to-can}
use cloud_agent_platform.Lifecycle.Subtask.Marks.{subtask_marks_lem}
use cloud_agent_platform.Lifecycle.Subtask.Marks as SubtaskMarks

abbrev fresh : Task
unfolding new_task
fresh = new_task "t1" "fix the build" "repo" "main" "client" 100

abbrev part : Subtask
unfolding new_subtask
part = new_subtask "s1" "t1" coding "fix it" "coder"

abbrev path : List String
path = "Dispatch" ∷ "StartExecution" ∷ "AutoComplete" ∷ []

transition_to-can_example :
    (t' : Task) × (e : Option TaskError) × (transition_to "Dispatch" fresh ≡ some (t', e))
    × (is_some e ≡ not (can_transition_to "Dispatch" fresh))
    × ((can_transition_to "Dispatch" fresh ≡ false) × (t' ≡ fresh)
        ⊎ (can_transition_to "Dispatch" fresh ≡ true)
          × (pending ⟶ t'.status)
          × (t' ≡ record fresh { status = t'.status; version = inc 1 }))
unfolding fresh
transition_to-can_example = transition_to-can "Dispatch" fresh

subtask_transition_to-can_example :
    (t' : Subtask) × (e : Option TaskError) × (SubtaskMethods.transition_to "Assign" part
      ≡ some (t', e))
    × (is_some e ≡ not (SubtaskMethods.can_transition_to "Assign" part))
    × ((SubtaskMethods.can_transition_to "Assign" part ≡ false) × (t' ≡ part)
        ⊎ (SubtaskMethods.can_transition_to "Assign" part ≡ true)
          × (pending ⟶ t'.status)
          × (t' ≡ record part { status = t'.status; version = inc 1 }))
unfolding part
subtask_transition_to-can_example = subtask_transition_to-can "Assign" part

path_completes : (run path fresh).status ≡ completed
unfolding run transition_to trigger build_task_state_machine fresh
path_completes = refl

completed_needs_example :
    (contains "Dispatch" path ≡ true) × (contains "StartExecution" path ≡ true)
unfolding fresh
completed_needs_example = completed_needs path fresh refl path_completes

task_diagram_example :
    (pending ⟶* reviewing)
    × ((is_terminal reviewing ≡ true) × ((t : TaskStatus) → ¬ (reviewing ⟶ t))
        ⊎ (is_terminal reviewing ≡ false) × (reviewing ⟶* completed))
task_diagram_example = task_diagram reviewing

marks_lem_example :
    let stamped = record fresh { completed_at = some 7 } in
    (TaskMethods.mark_started fresh
      ≡ some (move_if (pending == dispatched) running "StartExecution" fresh))
    × (TaskMethods.mark_completed 7 fresh
        ≡ some (move_if (pending == reviewing) completed "ReviewPassed" stamped))
    × (TaskMethods.mark_failed 7 fresh
        ≡ some (move_if (pending == running) failed "ExecutionFailed" stamped))
    × (TaskMethods.mark_cancelled fresh
        ≡ some (
            move_if
              (pending == pending
                || pending == dispatched
                || pending == running
                || pending == confirming)
              cancelled
              "Cancel"
              fresh))
unfolding fresh
marks_lem_example = marks_lem 7 fresh

-- The refused call sets the completion time of a pending task.
refused_stamps :
    TaskMethods.mark_completed 7 fresh
    ≡ some (move_if false completed "ReviewPassed" (record fresh { completed_at = some 7 }))
unfolding TaskMethods.mark_completed transition_to trigger build_task_state_machine fresh
refused_stamps = refl

abbrev subtask_move_if : Bool → TaskStatus → String → Subtask → Subtask × Option TaskError
subtask_move_if = SubtaskMarks.move_if

subtask_marks_lem_example :
    let given = record part { agent_instance = some "a1" } in
    let begun = record part { started_at = some 7 } in
    let summed = record part { summary = some "done"; completed_at = some 7 } in
    let stamped = record part { completed_at = some 7 } in
    (SubtaskMethods.assign "a1" part
      ≡ some (subtask_move_if (pending == pending) dispatched "Assign" given))
    × (SubtaskMethods.mark_started 7 part
        ≡ some (subtask_move_if (pending == dispatched) running "StartExecution" begun))
    × (SubtaskMethods.mark_completed "done" 7 part
        ≡ some (subtask_move_if (pending == reviewing) completed "ReviewPassed" summed))
    × (SubtaskMethods.mark_failed 7 part
        ≡ some (subtask_move_if (pending == running) failed "ExecutionFailed" stamped))
    × (SubtaskMethods.mark_cancelled part
        ≡ some (
            subtask_move_if
              (pending == pending || pending == dispatched || pending == running)
              cancelled
              "Cancel"
              part))
unfolding part
subtask_marks_lem_example = subtask_marks_lem "a1" "done" 7 part
