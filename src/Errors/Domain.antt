-- ===== src/Errors/Domain.antt =====
-- The constructors of the L2-Domain errors of internal/domain/errors.go.
use cloud_agent_platform.Base.{ℕ, String, some, [], ◌∷◌}
use Prim.Native.String.{◌++◌ as str_append}
use cloud_agent_platform.Lifecycle.{TaskStatus, status_to_string}
use cloud_agent_platform.Events.{decimal_int}
use cloud_agent_platform.Errors.{AppError, Err, nil, DetailMap, domain, text, number}
use cloud_agent_platform.Errors.Codes.{
  code_l2_invalid_state_transition, code_l2_business_rule_violated, code_l2_optimistic_lock,
  code_l2_invariant_broken, code_l2_event_serialization, code_l2_param_validation,
  code_l2_aggregate_not_found, code_l2_context_exceeded, code_l2_invalid_input,
  code_l2_invalid_state, code_l2_not_found, code_l2_unauthorized, code_l2_operation_failed,
  code_l2_invalid_operation,
}

unfoldable pub new_l2_invalid_state_transition_error : String → TaskStatus → TaskStatus → AppError
unfolding status_to_string
new_l2_invalid_state_transition_error entity from to = record {
  code = code_l2_invalid_state_transition;
  message = str_append "illegal state transition for " (
      str_append entity (
        str_append ": "
          (str_append (status_to_string from) (str_append " -> " ((status_to_string to))))));
  layer = domain;
  details = some (
      ("entity", text entity)
      ∷ ("from_state", text (status_to_string from))
      ∷ ("to_state", text (status_to_string to))
      ∷ []);
  cause = nil;
}

unfoldable pub new_l2_business_rule_violated_error : String → DetailMap → AppError
new_l2_business_rule_violated_error rule details = record {
  code = code_l2_business_rule_violated;
  message = str_append "business rule violated: " rule;
  layer = domain;
  details = details;
  cause = nil;
}

unfoldable pub new_l2_optimistic_lock_error : String → String → ℕ → ℕ → AppError
unfolding decimal_int
new_l2_optimistic_lock_error entity id expected actual = record {
  code = code_l2_optimistic_lock;
  message = str_append "optimistic lock conflict for " (
      str_append entity (
        str_append " " (
          str_append id (
            str_append ": expected version " (
              str_append (decimal_int expected) (str_append ", found " ((decimal_int actual))))))));
  layer = domain;
  details = some (
      ("entity", text entity)
      ∷ ("id", text id)
      ∷ ("expected_version", number expected)
      ∷ ("actual_version", number actual)
      ∷ []);
  cause = nil;
}

unfoldable pub new_l2_invariant_broken_error : String → DetailMap → AppError
new_l2_invariant_broken_error invariant details = record {
  code = code_l2_invariant_broken;
  message = str_append "domain invariant broken: " invariant;
  layer = domain;
  details = details;
  cause = nil;
}

unfoldable pub new_l2_event_serialization_error : String → Err → AppError
new_l2_event_serialization_error event_type cause = record {
  code = code_l2_event_serialization;
  message = str_append "domain event serialization failed: " event_type;
  layer = domain;
  details = some (("event_type", text event_type) ∷ []);
  cause = cause;
}

unfoldable pub new_l2_param_validation_error : String → String → AppError
new_l2_param_validation_error field reason = record {
  code = code_l2_param_validation;
  message =
      str_append "parameter validation failed for " (str_append field (str_append ": " reason));
  layer = domain;
  details = some (("field", text field) ∷ ("reason", text reason) ∷ []);
  cause = nil;
}

unfoldable pub new_l2_aggregate_not_found_error : String → String → AppError
new_l2_aggregate_not_found_error aggregate_type id = record {
  code = code_l2_aggregate_not_found;
  message = str_append aggregate_type (str_append " aggregate not found: " id);
  layer = domain;
  details = some (("aggregate_type", text aggregate_type) ∷ ("id", text id) ∷ []);
  cause = nil;
}

unfoldable pub new_l2_context_exceeded_error : ℕ → ℕ → AppError
unfolding decimal_int
new_l2_context_exceeded_error budget used = record {
  code = code_l2_context_exceeded;
  message =
      str_append "context token budget exceeded: "
        (str_append (decimal_int used) (str_append " used, budget " ((decimal_int budget))));
  layer = domain;
  details = some (("budget", number budget) ∷ ("used", number used) ∷ []);
  cause = nil;
}

unfoldable pub new_l2_invalid_input_error : String → String → AppError
new_l2_invalid_input_error field reason = record {
  code = code_l2_invalid_input;
  message =
      str_append "invalid input: " (str_append field (str_append " (" (str_append reason ")")));
  layer = domain;
  details = some (("field", text field) ∷ ("reason", text reason) ∷ []);
  cause = nil;
}

unfoldable pub new_l2_invalid_state_error : String → String → String → AppError
new_l2_invalid_state_error entity state reason = record {
  code = code_l2_invalid_state;
  message = str_append "invalid state for " (
      str_append entity
        (str_append ": " (str_append state (str_append " (" (str_append reason ")")))));
  layer = domain;
  details = some (("entity", text entity) ∷ ("state", text state) ∷ ("reason", text reason) ∷ []);
  cause = nil;
}

unfoldable pub new_l2_not_found_error : String → String → AppError
new_l2_not_found_error resource_type id = record {
  code = code_l2_not_found;
  message = str_append resource_type (str_append " not found: " id);
  layer = domain;
  details = some (("type", text resource_type) ∷ ("id", text id) ∷ []);
  cause = nil;
}

unfoldable pub new_l2_unauthorized_error : String → AppError
new_l2_unauthorized_error reason = record {
  code = code_l2_unauthorized;
  message = str_append "unauthorized: " reason;
  layer = domain;
  details = some (("reason", text reason) ∷ []);
  cause = nil;
}

unfoldable pub new_l2_operation_failed_error : String → Err → AppError
new_l2_operation_failed_error op cause = record {
  code = code_l2_operation_failed;
  message = str_append "operation failed: " op;
  layer = domain;
  details = some (("operation", text op) ∷ []);
  cause = cause;
}

unfoldable pub new_l2_invalid_operation_error : String → String → AppError
new_l2_invalid_operation_error op reason = record {
  code = code_l2_invalid_operation;
  message =
      str_append "operation not allowed: "
        (str_append op (str_append " (" (str_append reason ")")));
  layer = domain;
  details = some (("operation", text op) ∷ ("reason", text reason) ∷ []);
  cause = nil;
}
