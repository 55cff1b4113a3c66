-- ===== src/Lifecycle/Building.antt =====
-- The machines that `BuildTaskStateMachine` and `BuildSubtaskStateMachine` make hold exactly the
-- declared rows, indexed, without guards and actions.
use cloud_agent_platform.Base.{
  ◌≡◌, refl, String, true, false, List, [], ◌∷◌, arith, string_comparable, All, all, all-All,
  All-map, Bool, ◌&&◌,
}
use cloud_agent_platform.Fsm.{new_state_machine_of}
use cloud_agent_platform.Fsm.Table.{IsIndexed, new-IsIndexed, add_transition-IsIndexed}
use cloud_agent_platform.Lifecycle.{pending, status_comparable}
use cloud_agent_platform.Lifecycle.Firing.{IsBare}
use cloud_agent_platform.Lifecycle.Machines.{
  TaskTransition, TaskStateMachine, task_state_machine_definition, subtask_state_machine_definition,
  register, build_task_state_machine, build_subtask_state_machine,
}

register-IsIndexed :
    (ts : List TaskTransition) (sm : TaskStateMachine) → IsIndexed sm → IsIndexed (register ts sm)
unfolding register
register-IsIndexed [] sm h = h
register-IsIndexed (t ∷ ts) sm h =
    register-IsIndexed ts _ (add_transition-IsIndexed t.from t.to t.event sm h)

pub build_task-transitions :
    (id : String) → (build_task_state_machine id).transitions ≡ task_state_machine_definition
unfolding build_task_state_machine
build_task-transitions id = refl

pub build_subtask-transitions :
    (id : String) → (build_subtask_state_machine id).transitions ≡ subtask_state_machine_definition
unfolding build_subtask_state_machine
build_subtask-transitions id = refl

pub build_task-IsIndexed : (id : String) → IsIndexed (build_task_state_machine id)
unfolding build_task_state_machine
build_task-IsIndexed id =
    register-IsIndexed task_state_machine_definition (new_state_machine_of "Task" id pending)
      (new-IsIndexed "Task" id pending)

pub build_subtask-IsIndexed : (id : String) → IsIndexed (build_subtask_state_machine id)
unfolding build_subtask_state_machine
build_subtask-IsIndexed id =
    register-IsIndexed subtask_state_machine_definition (new_state_machine_of "Subtask" id pending)
      (new-IsIndexed "Subtask" id pending)

abbrev is_empty {ℓ} : {A : Type ℓ} → List A → Bool
is_empty [] = true
is_empty (_ ∷ _) = false

is_empty-nil {ℓ} : {A : Type ℓ} (xs : List A) → is_empty xs ≡ true → xs ≡ []
is_empty-nil [] h = refl
is_empty-nil (_ ∷ _) h = cc

abbrev is_bare : TaskTransition → Bool
is_bare t = is_empty t.guards && is_empty t.actions

is_bare-IsBare : (t : TaskTransition) → is_bare t ≡ true → IsBare t
is_bare-IsBare t h = (is_empty-nil t.guards (ground arith), is_empty-nil t.actions (ground arith))

all-IsBare : (ts : List TaskTransition) → all is_bare ts ≡ true → All IsBare ts
all-IsBare ts h = All-map (λ t. is_bare t ≡ true) IsBare ts is_bare-IsBare (all-All is_bare ts h)

pub build_task-IsBare : (id : String) → All IsBare (build_task_state_machine id).transitions
build_task-IsBare id =
    rw build_task-transitions (all-IsBare task_state_machine_definition (unfold all in refl))

pub build_subtask-IsBare : (id : String) → All IsBare (build_subtask_state_machine id).transitions
build_subtask-IsBare id =
    rw build_subtask-transitions (all-IsBare subtask_state_machine_definition (unfold all in refl))

-- The identity that the machines report in errors.
pub build_task-names :
    (id : String)
    → ((build_task_state_machine id).aggregate.entity_type ≡ "Task")
      × ((build_task_state_machine id).aggregate.entity_id ≡ id)
unfolding build_task_state_machine
build_task-names id = (refl, refl)

pub build_subtask-names :
    (id : String)
    → ((build_subtask_state_machine id).aggregate.entity_type ≡ "Subtask")
      × ((build_subtask_state_machine id).aggregate.entity_id ≡ id)
unfolding build_subtask_state_machine
build_subtask-names id = (refl, refl)
