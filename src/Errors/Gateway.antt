-- ===== src/Errors/Gateway.antt =====
-- The constructors of the L5-Gateway errors of internal/domain/errors.go.
use cloud_agent_platform.Base.{ℕ, String, none, some, [], ◌∷◌}
use Prim.Native.String.{◌++◌ as str_append}
use cloud_agent_platform.Events.{decimal_int}
use cloud_agent_platform.Errors.{AppError, Err, nil, gateway, text, number}
use cloud_agent_platform.Errors.Codes.{
  code_l5_invalid_request, code_l5_route_not_found, code_l5_ws_connect, code_l5_ws_message,
  code_l5_protocol_error, code_l5_internal_error, code_l5_service_unavailable,
  code_l5_payload_too_large, code_l5_timeout,
}

unfoldable pub new_l5_invalid_request_error : String → String → AppError
new_l5_invalid_request_error field reason = record {
  code = code_l5_invalid_request;
  message =
      str_append "invalid request: " (str_append field (str_append " (" (str_append reason ")")));
  layer = gateway;
  details = some (("field", text field) ∷ ("reason", text reason) ∷ []);
  cause = nil;
}

unfoldable pub new_l5_route_not_found_error : String → AppError
new_l5_route_not_found_error method = record {
  code = code_l5_route_not_found;
  message = str_append "route not found: " method;
  layer = gateway;
  details = some (("method", text method) ∷ []);
  cause = nil;
}

unfoldable pub new_l5_ws_connect_error : Err → AppError
new_l5_ws_connect_error cause = record {
  code = code_l5_ws_connect;
  message = "WebSocket connection failed";
  layer = gateway;
  details = none;
  cause = cause;
}

unfoldable pub new_l5_ws_message_error : String → String → Err → AppError
new_l5_ws_message_error room action cause = record {
  code = code_l5_ws_message;
  message = str_append "WebSocket " (str_append action (str_append " failed for room " room));
  layer = gateway;
  details = some (("room", text room) ∷ ("action", text action) ∷ []);
  cause = cause;
}

unfoldable pub new_l5_protocol_error : String → Err → AppError
new_l5_protocol_error detail cause = record {
  code = code_l5_protocol_error;
  message = str_append "protocol adaptation error: " detail;
  layer = gateway;
  details = some (("detail", text detail) ∷ []);
  cause = cause;
}

unfoldable pub new_l5_internal_error : Err → AppError
new_l5_internal_error cause = record {
  code = code_l5_internal_error;
  message = "internal gateway error";
  layer = gateway;
  details = none;
  cause = cause;
}

unfoldable pub new_l5_service_unavailable_error : String → Err → AppError
new_l5_service_unavailable_error service cause = record {
  code = code_l5_service_unavailable;
  message = str_append "upstream service unavailable: " service;
  layer = gateway;
  details = some (("service", text service) ∷ []);
  cause = cause;
}

unfoldable pub new_l5_payload_too_large_error : ℕ → ℕ → AppError
unfolding decimal_int
new_l5_payload_too_large_error size limit = record {
  code = code_l5_payload_too_large;
  message = str_append "request payload too large: " (
      str_append (decimal_int size)
        (str_append " bytes (limit: " (str_append (decimal_int limit) ")")));
  layer = gateway;
  details = some (("size", number size) ∷ ("limit", number limit) ∷ []);
  cause = nil;
}

unfoldable pub new_l5_timeout_error : String → AppError
new_l5_timeout_error operation = record {
  code = code_l5_timeout;
  message = str_append "request timeout during: " operation;
  layer = gateway;
  details = some (("operation", text operation) ∷ []);
  cause = nil;
}
