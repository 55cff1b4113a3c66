-- ===== src/Fsm/Examples.antt =====
-- Runs of the state machine, and the theorems at concrete machines.
use cloud_agent_platform.Base.{
  ℕ, ◌≡◌, refl, ◌&&◌, String, true, false, none, some, List, [], ◌∷◌, nat_comparable,
  string_comparable, if◌then◌else◌,
}
use cloud_agent_platform.Fsm.{
  Aggregate, StateMachine, Transition, Fired, custom, new_state_machine_of, add_transition, trigger,
  fire, of_event, Guard,
}
use cloud_agent_platform.Fsm.Table.{
  rule_for, bare, IsIndexed, new-IsIndexed, first_wins, add_transition-IsIndexed,
}
use cloud_agent_platform.Fsm.Trigger.{Outcome, NoActions, trigger_outcome}
use cloud_agent_platform.Fsm.Guards.{guard_func, guard_version_match}

-- A door: 0 is shut, 1 is open.
abbrev door : StateMachine ℕ String
door =
    (add_transition 1 0 "shut" (add_transition 0 1 "open" (new_state_machine_of "Door" "d1" 0)).0).0

door-IsIndexed : IsIndexed door
door-IsIndexed =
    add_transition-IsIndexed 1 0 "shut"
      (add_transition 0 1 "open" (new_state_machine_of "Door" "d1" 0)).0
      (add_transition-IsIndexed 0 1 "open" (new_state_machine_of "Door" "d1" 0)
        (new-IsIndexed "Door" "d1" 0))

door-NoActions : NoActions door
unfolding add_transition new_state_machine_of
door-NoActions = (refl, (refl, tt))

trigger_outcome_example :
    (f : Fired ℕ String) × (trigger "open" door ≡ some f) × Outcome "open" door f
trigger_outcome_example = trigger_outcome "open" door door-IsIndexed door-NoActions

-- A second rule for a state and an event is ignored.
first_wins_example :
    rule_for 0 "open" (add_transition 0 7 "open" door).0
    ≡ some (elim (rule_for 0 "open" door) [
      | some (some t) ↦ some t
      | _ ↦
          if nat_comparable.same 0 0 && string_comparable.same "open" "open"
          then some (bare 0 7 "open")
          else none
    ])
first_wins_example = first_wins 0 7 "open" 0 "open" door door-IsIndexed

abbrev at_three : Aggregate ℕ String
at_three = record {
  entity_id = "d1";
  entity_type = "Door";
  state = 0;
  version = 3;
  initial_state = 0;
  audit = [];
}

abbrev guarded : Transition ℕ String
guarded = record {
  from = 0;
  to = 1;
  event = "open";
  guards = guard_version_match 3 ∷ [];
  actions = [];
}

guarded_fires : (fire "open" guarded at_three).2 ≡ none
unfolding fire guard_version_match
guarded_fires = refl

abbrev refusing : List (Guard ℕ String)
refusing = guard_func true none ∷ guard_func false (some (custom "no")) ∷ guard_func false none ∷ []

abbrev opened : Fired ℕ String
opened = record {
  machine = record door {
    aggregate = record {
      entity_id = "d1";
      entity_type = "Door";
      state = 1;
      version = 2;
      initial_state = 0;
      audit =
          record {
            entity_type = "Door";
            entity_id = "d1";
            from_state = 0;
            to_state = 1;
            label = of_event "open";
            version = 2;
            success = true;
            error = none;
          }
          ∷ [];
    };
  };
  state = 1;
  error = none;
}

-- The door opens, and its log says so.
opens : trigger "open" door ≡ some opened
unfolding trigger add_transition new_state_machine_of
opens = refl
