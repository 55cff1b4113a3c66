-- ===== src/Errors/Authz.antt =====
-- The constructors of the L3-Authz errors of internal/domain/errors.go.
use cloud_agent_platform.Base.{ℕ, String, none, some, [], ◌∷◌}
use Prim.Native.String.{◌++◌ as str_append}
use cloud_agent_platform.Events.{decimal_int}
use cloud_agent_platform.Errors.{AppError, Err, nil, authz, text, number}
use cloud_agent_platform.Errors.Codes.{
  code_l3_authn_failed, code_l3_authz_denied, code_l3_rate_limited, code_l3_authz_svc_down,
  code_l3_invalid_api_key, code_l3_token_expired, code_l3_insufficient_quota,
}

unfoldable pub new_l3_authn_failed_error : String → AppError
new_l3_authn_failed_error reason = record {
  code = code_l3_authn_failed;
  message = str_append "authentication failed: " reason;
  layer = authz;
  details = some (("reason", text reason) ∷ []);
  cause = nil;
}

unfoldable pub new_l3_authz_denied_error : String → AppError
new_l3_authz_denied_error permission = record {
  code = code_l3_authz_denied;
  message = str_append "authorization denied: " permission;
  layer = authz;
  details = some (("permission", text permission) ∷ []);
  cause = nil;
}

unfoldable pub new_l3_rate_limited_error : String → ℕ → AppError
new_l3_rate_limited_error limit_type retry_after = record {
  code = code_l3_rate_limited;
  message = str_append "rate limit exceeded: " limit_type;
  layer = authz;
  details =
      some (("limit_type", text limit_type) ∷ ("retry_after_seconds", number retry_after) ∷ []);
  cause = nil;
}

unfoldable pub new_l3_authz_svc_down_error : Err → AppError
new_l3_authz_svc_down_error cause = record {
  code = code_l3_authz_svc_down;
  message = "authorization service unavailable";
  layer = authz;
  details = none;
  cause = cause;
}

unfoldable pub new_l3_invalid_api_key_error : AppError
new_l3_invalid_api_key_error = record {
  code = code_l3_invalid_api_key;
  message = "API key invalid or revoked";
  layer = authz;
  details = none;
  cause = nil;
}

unfoldable pub new_l3_token_expired_error : AppError
new_l3_token_expired_error = record {
  code = code_l3_token_expired;
  message = "JWT token expired";
  layer = authz;
  details = none;
  cause = nil;
}

unfoldable pub new_l3_insufficient_quota_error : String → ℕ → ℕ → AppError
unfolding decimal_int
new_l3_insufficient_quota_error quota_type used limit = record {
  code = code_l3_insufficient_quota;
  message = str_append "quota exceeded: " (
      str_append quota_type (
        str_append " ("
          (str_append (decimal_int used) (str_append " / " (str_append (decimal_int limit) ")")))));
  layer = authz;
  details =
      some (("quota_type", text quota_type) ∷ ("used", number used) ∷ ("limit", number limit) ∷ []);
  cause = nil;
}
