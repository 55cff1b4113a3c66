-- ===== src/Errors.antt =====
-- internal/domain/errors.go: `AppError`, the error of all layers, and the chains of errors in it.
-- The codes are in Errors/Codes, the constructors in a module for each layer.
pub mod Codes
pub mod Storage
pub mod Domain
pub mod Authz
pub mod Services
pub mod Gateway
pub mod Chains
pub mod Details
mod Examples
use cloud_agent_platform.Base.{
  ℕ, String, Bool, false, ◌||◌, Option, none, some, List, [], ◌∷◌, ◌==◌, string_comparable,
  if◌then◌else◌,
}
use Prim.Native.String.{◌++◌ as str_append}
use cloud_agent_platform.Lifecycle.{TaskStatus}

-- `Layer`
pub data Layer : Type 0 where
  storage domain authz service gateway unset : Layer  -- `unset` is ""

-- What the constructors put into `Details`, and any other value by its text.
pub data Value : Type 0 where
  text any : String → Value
  number : ℕ → Value
  statuses : List TaskStatus → Value

-- The map `Details`; `none` is nil.
abbrev pub DetailMap : Type 0
DetailMap = Option (List (String × Value))

-- An `error`: nil, one of `errors.New`, one that wraps another as `fmt.Errorf` makes it, with its
-- text, or an `*AppError`.
pub data Err : Type 0 where
  nil : Err
  plain : String → Err
  wrapped : String → Err → Err
  app : (code message : String) → Layer → DetailMap → (cause : Err) → Err

pub record AppError : Type 0 where
  pub code : String
  pub message : String
  pub layer : Layer
  pub details : DetailMap
  pub cause : Err

abbrev pub as_error : AppError → Err
as_error e = app e.code e.message e.layer e.details e.cause

-- `Error`, for every error.
unfoldable pub error_text : Err → String
error_text nil = ""
error_text (plain s) = s
error_text (wrapped s e) = s
error_text (app code message layer details nil) = str_append code (str_append ": " message)
error_text (app code message layer details cause) = str_append code (
    str_append ": "
      (str_append message (str_append " (caused by: " (str_append (error_text cause) ")"))))

abbrev pub unwrap : AppError → Err
unwrap e = e.cause

-- `Is`, for an `*AppError` as the target.
abbrev pub is : AppError → AppError → Bool
is e target = e.code == target.code

-- `errors.Is` for an `*AppError` as the target: along the chain, by `Is`.
unfoldable pub errors_is : Err → AppError → Bool
errors_is nil target = false
errors_is (plain s) target = false
errors_is (wrapped s e) target = errors_is e target
errors_is (app code message layer details cause) target =
    is record { code = code; message = message; layer = layer; details = details; cause = cause }
      target
    || errors_is cause target

-- `errors.As` for an `**AppError`: the first `AppError` along the chain.
unfoldable pub errors_as : Err → Option AppError
errors_as nil = none
errors_as (plain s) = none
errors_as (wrapped s e) = errors_as e
errors_as (app code message layer details cause) =
    some record { code = code; message = message; layer = layer; details = details; cause = cause }

-- `As`, for an `**AppError`: the first below the error, and else the error.
unfoldable pub as_app_error : AppError → AppError
unfolding errors_as
as_app_error e = elim (errors_as e.cause) [ none ↦ e | some below ↦ below ]

unfoldable pub put_detail : String → Value → List (String × Value) → List (String × Value)
put_detail k v [] = (k, v) ∷ []
put_detail k v ((k', v') ∷ m) = if k' == k then (k, v) ∷ m else (k', v') ∷ put_detail k v m

unfoldable pub put_details : List (String × Value) → List (String × Value) → List (String × Value)
unfolding put_detail
put_details [] m = m
put_details ((k, v) ∷ d) m = put_details d (put_detail k v m)

abbrev pub entries : DetailMap → List (String × Value)
entries none = []
entries (some d) = d

unfoldable pub with_details : AppError → DetailMap → AppError
unfolding put_details
with_details e none = e
with_details e (some d) = record e {
  details = some (put_details d (put_details (entries e.details) []));
}

unfoldable pub with_cause : AppError → Err → AppError
with_cause e cause = record e { cause = cause }

-- `&AppError{Code: code}`; its other fields are not looked at.
abbrev pub only_code : String → AppError
only_code code = record { code = code; message = ""; layer = unset; details = none; cause = nil }

unfoldable pub code_is : Err → String → Bool
unfolding errors_is
code_is err code = errors_is err (only_code code)

unfoldable pub code_as : Err → String → Option AppError
unfolding errors_as
code_as err code = elim (errors_as err) [
  | none ↦ none
  | some e ↦ if e.code == code then some e else none
]
