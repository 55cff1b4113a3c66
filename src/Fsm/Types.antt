-- ===== src/Fsm/Types.antt =====
-- The data of internal/domain/statemachine.go.
use cloud_agent_platform.Base.{ℕ, String, Bool, Option, List}

-- What the audit log calls the event: an event of the machine, or a free action name.
pub data Label (E : Type 0) : Type 0 where
  of_event : E → Label E
  of_action : String → Label E

-- `*AppError` by its constructor function, with the values that the message formats.
-- `custom` is an error of a caller's guard or action.
pub data Error (S E : Type 0) : Type 0 where
  transition_failed :
      (entity_type entity_id : String) (from to : S) (event : E) (reason : String) → Error S E
  optimistic_lock : (entity_type entity_id : String) (expected actual : ℕ) → Error S E
  version_too_low : (min_version actual_version : ℕ) → Error S E
  field_not_zero : (field : String) → Error S E
  invalid_state : (entity_type : String) (state : S) (reason : String) → Error S E
  param_validation : (field reason : String) → Error S E
  terminal_has_outgoing : (entity_type entity_id : String) (state : S) → Error S E
  nil_machine : Error S E
  custom : String → Error S E

-- `TransitionRecord`, the arguments of one call of `LogStateTransition`.
pub record TransitionRecord (S E : Type 0) : Type 0 where
  pub entity_type : String
  pub entity_id : String
  pub from_state : S
  pub to_state : S
  pub label : Label E
  pub version : ℕ
  pub success : Bool
  pub error : Option (Error S E)

pub record Aggregate (S E : Type 0) : Type 0 where
  pub entity_id : String
  pub entity_type : String
  pub state : S
  pub version : ℕ  -- int64
  pub initial_state : S
  pub audit : List (TransitionRecord S E)

abbrev pub Guard : Type 0 → Type 0 → Type 0
Guard S E = Aggregate S E → Bool × Option (Error S E)

abbrev pub Action : Type 0 → Type 0 → Type 0
Action S E = Aggregate S E → Aggregate S E × Option (Error S E)

pub record Transition (S E : Type 0) : Type 0 where
  pub from : S
  pub to : S
  pub event : E
  pub guards : List (Guard S E)
  pub actions : List (Action S E)

abbrev pub Index : Type 0 → Type 0 → Type 0
Index S E = List ((S × E) × ℕ)

pub record StateMachine (S E : Type 0) : Type 0 where
  pub aggregate : Aggregate S E
  pub transitions : List (Transition S E)
  pub transitions_map : Index S E

-- What `Trigger` leaves behind and returns.
pub record Fired (S E : Type 0) : Type 0 where
  pub machine : StateMachine S E
  pub state : S
  pub error : Option (Error S E)
