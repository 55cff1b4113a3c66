-- ===== src/Lifecycle/Subtask/Laws.antt =====
-- What the methods of `Subtask` do to a subtask.
use cloud_agent_platform.Base.{
  ◌≡◌, refl, ap, ◌⊎◌, inl, inr, String, true, false, Option, none, some, arith, string_comparable,
  is_some, not, Option-cases,
}
use mathlib.Core.Path.{subst}
use cloud_agent_platform.Base.Int64.{inc}
use cloud_agent_platform.Fsm.{Aggregate, Fired, transition_failed}
use cloud_agent_platform.Fsm.Table.{find_transition, find_transition-All, find_transition_key}
use cloud_agent_platform.Lifecycle.{TaskStatus, status_comparable}
use cloud_agent_platform.Lifecycle.Entity.{Subtask, TaskError}
use cloud_agent_platform.Lifecycle.Machines.{
  TaskTransition, subtask_state_machine_definition, build_subtask_state_machine, at_state,
}
use cloud_agent_platform.Lifecycle.Graph.{◌⟶◌, subtask_row_⟶}
use cloud_agent_platform.Lifecycle.Building.{
  build_subtask-transitions, build_subtask-IsIndexed, build_subtask-IsBare, build_subtask-names,
}
use cloud_agent_platform.Lifecycle.Firing.{trigger_bare, can_transition-find, Fires}
use cloud_agent_platform.Lifecycle.Subtask.{take_result, transition_to, can_transition_to}

abbrev pub missing : String → Subtask → TaskError
missing event t = transition_failed "Subtask" t.id t.status t.status event "transition not found"

-- The specification: a move along a declared row.
abbrev pub move : Subtask → String → Option TaskTransition → Subtask × Option TaskError
move t event none = (t, some (missing event t))
move t event (some r) = (record t { status = r.to; version = inc t.version }, none)

take_result-Fires :
    (event : String) (t : Subtask) (a : Aggregate TaskStatus String) (f : Fired TaskStatus String)
    (o : Option TaskTransition)
    → a.entity_type ≡ "Subtask"
    → a.entity_id ≡ t.id
    → a.state ≡ t.status
    → a.version ≡ t.version
    → Fires event a f o
    → take_result t f ≡ move t event o
take_result-Fires event t a f none p q r s h = ground arith
take_result-Fires event t a f (some row) p q r s h = ground arith

-- `TransitionTo` never panics, and is a lookup in the declared rows.
pub transition_to_lem :
    (event : String) (t : Subtask)
    → transition_to event t
      ≡ some (move t event (find_transition t.status event subtask_state_machine_definition))
unfolding transition_to
transition_to_lem event t =
    let sm = at_state t.status t.version (build_subtask_state_machine t.id) in
    let (f, fired, fires) =
      trigger_bare event sm (build_subtask-IsIndexed t.id) (build_subtask-IsBare t.id) in
    let (type, id) = build_subtask-names t.id in
    rw (fired, transition_to)
      (ap some (
        take_result-Fires event t sm.aggregate f _ type id refl refl (
          subst (λ ts. Fires event sm.aggregate f (find_transition t.status event ts))
            (build_subtask-transitions t.id) fires)))

-- `CanTransitionTo` asks whether the declared rows have the step.
pub can_transition_to_lem :
    (event : String) (t : Subtask)
    → can_transition_to event t
      ≡ is_some (find_transition t.status event subtask_state_machine_definition)
unfolding can_transition_to
can_transition_to_lem event t =
    let built = build_subtask_state_machine t.id in
    rw (← build_subtask-transitions t.id) (
      can_transition-find event (at_state t.status built.aggregate.version built)
        (build_subtask-IsIndexed t.id))

-- `TransitionTo` succeeds exactly if `CanTransitionTo` holds. It then moves the status along a
-- declared row, raises the version by one in 64 bits and changes nothing else; if not, the subtask
-- is as it was.
pub subtask_transition_to-can :
    (event : String) (t : Subtask)
    → (t' : Subtask) × (e : Option TaskError) × (transition_to event t ≡ some (t', e))
      × (is_some e ≡ not (can_transition_to event t))
      × ((can_transition_to event t ≡ false) × (t' ≡ t)
          ⊎ (can_transition_to event t ≡ true)
            × (t.status ⟶ t'.status)
            × (t' ≡ record t { status = t'.status; version = inc t.version }))
subtask_transition_to-can event t =
    elim (Option-cases (find_transition t.status event subtask_state_machine_definition)) [
      | inl e ↦ (
        t,
        some (missing event t),
        rw e at (transition_to_lem event t),
        ground (arith, can_transition_to_lem event t),
        inl (ground (arith, can_transition_to_lem event t), refl),
      )
      | inr (r, e) ↦ (
        record t { status = r.to; version = inc t.version },
        none,
        rw e at (transition_to_lem event t),
        ground (arith, can_transition_to_lem event t),
        inr (
          ground (arith, can_transition_to_lem event t),
          subst (λ s. s ⟶ r.to) (find_transition_key t.status event _ e).0
              (find_transition-All (λ u. u.from ⟶ u.to) t.status event _ subtask_row_⟶ e),
          refl,
        ),
      )
    ]
