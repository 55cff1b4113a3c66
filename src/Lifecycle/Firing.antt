-- ===== src/Lifecycle/Firing.antt =====
-- What `Trigger` does on a machine whose rows carry no guards and no actions, such as those of
-- tasks and subtasks.
use cloud_agent_platform.Base.{
  ◌≡◌, refl, inl, inr, String, Option, none, some, [], arith, string_comparable, is_some,
  Option-cases, All,
}
use cloud_agent_platform.Base.Int64.{inc}
use cloud_agent_platform.Fsm.{
  Aggregate, Fired, Error, transition_failed, fire, trigger, can_transition,
}
use cloud_agent_platform.Fsm.Table.{
  find_transition, find_transition-All, IsIndexed, scan_trigger, trigger-eq_scan,
}
use cloud_agent_platform.Lifecycle.{TaskStatus, status_comparable}
use cloud_agent_platform.Lifecycle.Machines.{TaskTransition, TaskStateMachine}

abbrev pub IsBare : TaskTransition → Type 0
IsBare t = (t.guards ≡ []) × (t.actions ≡ [])

-- The error of a transition that is not in the table.
abbrev pub not_found : Aggregate TaskStatus String → String → Error TaskStatus String
not_found a event =
    transition_failed a.entity_type a.entity_id a.state a.state event "transition not found"

-- The outcome by the row that the table has.
abbrev pub Fires :
    String → Aggregate TaskStatus String → Fired TaskStatus String → Option TaskTransition → Type 0
Fires event a f none = f.error ≡ some (not_found a event)
Fires event a f (some r) =
    (f.error ≡ none) × (f.state ≡ r.to) × (f.machine.aggregate.version ≡ inc a.version)

scan_bare :
    (event : String) (sm : TaskStateMachine)
    → All IsBare sm.transitions
    → Fires event sm.aggregate
        (scan_trigger event sm)
        (find_transition sm.aggregate.state event sm.transitions)
unfolding scan_trigger fire
scan_bare event sm bare =
    elim (Option-cases (find_transition sm.aggregate.state event sm.transitions)) [
      | inl e ↦ rw (e, scan_trigger) refl
      | inr (r, e) ↦
          let (g, c) = find_transition-All IsBare sm.aggregate.state event sm.transitions bare e in
          rw (e, scan_trigger) (ground arith)
    ]

pub trigger_bare :
    (event : String) (sm : TaskStateMachine)
    → IsIndexed sm
    → All IsBare sm.transitions
    → (f : Fired TaskStatus String) × (trigger event sm ≡ some f)
      × Fires event sm.aggregate f (find_transition sm.aggregate.state event sm.transitions)
trigger_bare event sm h bare =
    (scan_trigger event sm, trigger-eq_scan event sm h, scan_bare event sm bare)

pub can_transition-find :
    (event : String) (sm : TaskStateMachine)
    → IsIndexed sm
    → can_transition event sm ≡ is_some (find_transition sm.aggregate.state event sm.transitions)
unfolding can_transition
can_transition-find event sm h = ground (arith, h sm.aggregate.state event)
