-- ===== src/Fsm.antt =====
-- internal/domain/statemachine.go: the generic, declarative state machine.
-- `StateMachine[S, E]` is a record of two: `Aggregate` holds the fields that guards and actions
-- read or write, and `StateMachine` adds the table of transitions. The audit logger's calls are
-- kept as the list `audit`, oldest first. A pointer into the slice of transitions is its index.
-- (`Types` has the data.) An index out of range would panic in Go: `trigger` and its kin return `none` for that.
mod Types
pub mod Table
pub mod Trigger
pub mod Guards
pub mod Events
mod Examples
pub use Types.*
use cloud_agent_platform.Base.{
  ℕ, zero, suc, ◌+◌, String, Bool, true, false, ◌&&◌, Option, none, some, List, [], ◌∷◌, ◌++◌,
  if◌then◌else◌, is_some, length, get_elem?, set, Comparable, ◌==◌, string_comparable,
}
use cloud_agent_platform.Base.Int64.{inc}

module _ {S E : Type 0} where
  unfoldable pub new_state_machine_of : String → String → S → StateMachine S E
  new_state_machine_of entity_type entity_id initial_state = record {
    aggregate = record {
      entity_id = entity_id;
      entity_type = entity_type;
      state = initial_state;
      version = 1;
      initial_state = initial_state;
      audit = [];
    };
    transitions = [];
    transitions_map = [];
  }

  unfoldable pub log : S → S → Label E → Bool → Option (Error S E) → Aggregate S E → Aggregate S E
  log from to label success error a = record a {
    audit =
        a.audit
        ++ record {
          entity_type = a.entity_type;
          entity_id = a.entity_id;
          from_state = from;
          to_state = to;
          label = label;
          version = a.version;
          success = success;
          error = error;
        }
          ∷ [];
  }

  -- `WithGuard` and `WithAction`, through the pointer that `AddTransition` returned.
  unfoldable pub with_guard : Guard S E → Transition S E → Transition S E
  with_guard guard t = record t { guards = t.guards ++ guard ∷ [] }

  unfoldable pub with_action : Action S E → Transition S E → Transition S E
  with_action action t = record t { actions = t.actions ++ action ∷ [] }

  unfoldable pub update_at :
      ℕ → (Transition S E → Transition S E) → StateMachine S E → StateMachine S E
  update_at idx f sm = elim (get_elem? sm.transitions idx) [
    | none ↦ sm
    | some t ↦ record sm { transitions = set sm.transitions idx (f t) }
  ]

  -- The loop over guards: stops at the first error and at the first refusal.
  abbrev pub after_guard :
      Bool × Option (Error S E) → Bool × Option (Error S E) → Bool × Option (Error S E)
  after_guard (allowed, some err) rest = (false, some err)
  after_guard (false, none) rest = (false, none)
  after_guard (true, none) rest = rest

  unfoldable pub eval_guards : List (Guard S E) → Guard S E
  eval_guards [] a = (true, none)
  eval_guards (g ∷ gs) a = after_guard (g a) (eval_guards gs a)

  abbrev pub after_action :
      Aggregate S E × Option (Error S E) → Action S E → Aggregate S E × Option (Error S E)
  after_action (a, some err) rest = (a, some err)
  after_action (a, none) rest = rest a

  -- The loop over actions: each sees what the ones before it left.
  unfoldable pub run_actions : List (Action S E) → Action S E
  run_actions [] a = (a, none)
  run_actions (f ∷ fs) a = after_action (f a) (run_actions fs)

  unfoldable pub reset : StateMachine S E → StateMachine S E
  reset sm = record sm {
    aggregate = record (sm.aggregate) { state = sm.aggregate.initial_state; version = 1 };
  }

  unfoldable pub validate : Option (StateMachine S E) → Option (Error S E)
  validate none = some nil_machine
  validate (some sm) =
      if sm.aggregate.entity_id == ""
      then some (param_validation "entity_id" "cannot be empty")
      else if sm.aggregate.entity_type == ""
      then some (param_validation "entity_type" "cannot be empty")
      else none

  -- `Trigger` after the actions: the new state and the version.
  unfoldable pub commit :
      E → S → Aggregate S E × Option (Error S E) → Aggregate S E × S × Option (Error S E)
  unfolding log
  commit event to (a, some err) =
      (log a.state a.state (of_event event) false (some err) a, a.state, some err)
  commit event to (a, none) =
      let a' = record a { state = to; version = inc a.version } in
      (log a.state to (of_event event) true none a', to, none)

  -- `Trigger` after the guards.
  unfoldable pub settle :
      E
      → Transition S E
      → Aggregate S E
      → Bool × Option (Error S E)
      → Aggregate S E × S × Option (Error S E)
  unfolding log run_actions commit
  settle event t a (allowed, some err) =
      (log a.state a.state (of_event event) false (some err) a, a.state, some err)
  settle event t a (false, none) = (
    log a.state a.state (of_event event) false none a,
    a.state,
    some (transition_failed a.entity_type a.entity_id a.state t.to event "guard blocked"),
  )
  settle event t a (true, none) = commit event t.to (run_actions t.actions a)

  unfoldable pub fire : E → Transition S E → Aggregate S E → Aggregate S E × S × Option (Error S E)
  unfolding eval_guards settle
  fire event t a = settle event t a (eval_guards t.guards a)

module _ {S E : Type 0} ⦃eq_s : Comparable S⦄ ⦃eq_e : Comparable E⦄ where
  -- A read of `transitionsMap`.
  unfoldable pub lookup_key : S → E → Index S E → Option ℕ
  lookup_key s e [] = none
  lookup_key s e (((from, event), idx) ∷ m) =
      if from == s && event == e then some idx else lookup_key s e m

  unfoldable pub add_transition : S → S → E → StateMachine S E → StateMachine S E × ℕ
  unfolding lookup_key
  add_transition from to event sm = elim (lookup_key from event sm.transitions_map) [
    | some idx ↦ (sm, idx)
    | none ↦
        let idx = length sm.transitions in
        let t : Transition S E = record {
          from = from;
          to = to;
          event = event;
          guards = [];
          actions = [];
        } in
        (
          record sm {
            transitions = sm.transitions ++ t ∷ [];
            transitions_map = ((from, event), idx) ∷ sm.transitions_map;
          },
          idx,
        )
  ]

  unfoldable pub can_transition : E → StateMachine S E → Bool
  unfolding lookup_key
  can_transition event sm = is_some (lookup_key sm.aggregate.state event sm.transitions_map)

  unfoldable pub transition_allowed : E → StateMachine S E → Option (Bool × Option (Error S E))
  unfolding lookup_key eval_guards
  transition_allowed event sm = elim (lookup_key sm.aggregate.state event sm.transitions_map) [
    | none ↦ some (false, none)
    | some idx ↦ elim (get_elem? sm.transitions idx) [
      | none ↦ none
      | some t ↦ some (eval_guards t.guards sm.aggregate)
    ]
  ]

  unfoldable pub trigger : E → StateMachine S E → Option (Fired S E)
  unfolding lookup_key fire
  trigger event sm =
      let a = sm.aggregate in
      elim (lookup_key a.state event sm.transitions_map) [
        | none ↦ some record {
          machine = record sm { aggregate = log a.state a.state (of_event event) false none a };
          state = a.state;
          error = some (
              transition_failed a.entity_type a.entity_id a.state a.state event
                "transition not found");
        }
        | some idx ↦ elim (get_elem? sm.transitions idx) [
          | none ↦ none
          | some t ↦
              let (a', state, error) = fire event t a in
              some record { machine = record sm { aggregate = a' }; state = state; error = error }
        ]
      ]
