-- ===== src/Events.antt =====
-- internal/domain/events.go: the construction of a domain event, with the checks of its type and of
-- its idempotency key.
pub mod EventType
pub mod Key
pub mod Approvals
mod Examples
use Prim.Native.Char.{Char, code}
use Prim.Native.String.{◌++◌ as str_append}
use cloud_agent_platform.Base.{
  ℕ, ◌-◌, String, Bool, true, false, ◌&&◌, ◌||◌, List, [], ◌∷◌, ltb, nat_beq, length, ◌==◌,
  string_comparable, if◌then◌else◌,
}
use cloud_agent_platform.Base.Int64.{modulus, sign_bit}
use cloud_agent_platform.Base.Text.{between, decimal, push_char}
use cloud_agent_platform.Lifecycle.Entity.{DomainEvent}

abbrev pub is_digit : Char → Bool
is_digit c = between b'0' b'9' (code c)

abbrev pub is_letter : Char → Bool
is_letter c = between b'a' b'z' (code c) || between b'A' b'Z' (code c)

abbrev pub is_alphanumeric : Char → Bool
is_alphanumeric c = is_letter c || is_digit c

unfoldable pub all_digits : String → Bool
all_digits String.[] = true
all_digits (String.◌∷◌ c s) = is_digit c && all_digits s

-- `\d+$`
unfoldable pub some_digits : String → Bool
unfolding all_digits
some_digits String.[] = false
some_digits (String.◌∷◌ c s) = all_digits (String.◌∷◌ c s)

-- `V(\d+)$`
unfoldable pub version_suffix : String → Bool
unfolding some_digits
version_suffix String.[] = false
version_suffix (String.◌∷◌ c s) = nat_beq (code c) b'V' && some_digits s

-- `[a-zA-Z0-9]*[a-zA-Z0-9]V(\d+)$`
unfoldable pub name_and_version : String → Bool
unfolding version_suffix
name_and_version String.[] = false
name_and_version (String.◌∷◌ c s) = is_alphanumeric c && (version_suffix s || name_and_version s)

-- `eventTypePattern`
unfoldable pub event_type_pattern : String → Bool
unfolding name_and_version
event_type_pattern String.[] = false
event_type_pattern (String.◌∷◌ c s) = is_letter c && name_and_version s

-- The errors, all with the code for the serialization of events.
pub data EventError : Type 0 where
  event_type_empty idempotency_key_empty : EventError
  event_type_mismatch idempotency_key_mismatch : String → EventError

pub data Validated : Type 0 where
  valid : Validated
  invalid : EventError → Validated

unfoldable pub validate_event_type : String → Validated
unfolding event_type_pattern
validate_event_type event_type =
    if event_type == ""
    then invalid event_type_empty
    else if event_type_pattern event_type
    then valid
    else invalid (event_type_mismatch event_type)

abbrev pub is_colon : Char → Bool
is_colon c = nat_beq (code c) b':'

unfoldable pub split_idempotency_key : String → List String
unfolding push_char
split_idempotency_key String.[] = String.[] ∷ []
split_idempotency_key (String.◌∷◌ c s) =
    let rest = split_idempotency_key s in if is_colon c then String.[] ∷ rest else push_char c rest

unfoldable pub validate_idempotency_key : String → Validated
unfolding split_idempotency_key
validate_idempotency_key key =
    if key == ""
    then invalid idempotency_key_empty
    else if nat_beq (length (split_idempotency_key key)) 3
    then valid
    else invalid (idempotency_key_mismatch key)

-- `%d` of an int, an int64 pattern.
unfoldable pub decimal_int : ℕ → String
unfolding decimal
decimal_int v = if ltb v sign_bit then decimal v else str_append "-" (decimal (modulus - v))

-- `fmt.Sprintf("%s:%s:%d", …)`
unfoldable pub key_of : (aggregate_id event_type : String) → (version : ℕ) → String
unfolding decimal_int
key_of aggregate_id event_type version =
    str_append aggregate_id
      (str_append ":" (str_append event_type (str_append ":" (decimal_int version))))

pub data NewEvent : Type 0 where
  created : DomainEvent → NewEvent
  refused : EventError → NewEvent

-- `NewDomainEventWithID`
unfoldable pub new_domain_event_with_id :
    (event_id aggregate_type aggregate_id event_type payload : String)
    → (occurred_at version : ℕ) → NewEvent
unfolding validate_event_type validate_idempotency_key key_of
new_domain_event_with_id event_id aggregate_type aggregate_id event_type payload occurred_at
      version =
    elim (validate_event_type event_type) [
      | invalid err ↦ refused err
      | valid ↦ elim (validate_idempotency_key (key_of aggregate_id event_type version)) [
        | invalid err ↦ refused err
        | valid ↦ created record {
          event_id = event_id;
          aggregate_type = aggregate_type;
          aggregate_id = aggregate_id;
          event_type = event_type;
          payload = payload;
          occurred_at = occurred_at;
          idempotency_key = key_of aggregate_id event_type version;
          version = version;
        }
      ]
    ]

-- `NewDomainEvent`, with the answers of `NewULID` and of the clock.
unfoldable pub new_domain_event :
    (ulid : String)
    → (now : ℕ) → (aggregate_type aggregate_id event_type payload : String) → (version : ℕ)
    → NewEvent
unfolding new_domain_event_with_id
new_domain_event ulid now aggregate_type aggregate_id event_type payload version =
    new_domain_event_with_id ulid aggregate_type aggregate_id event_type payload now version
