-- ===== src/Events/Examples.antt =====
-- The theorems on events at concrete texts.
use Prim.Native.Char.{Char}
use cloud_agent_platform.Base.{
  ◌≡◌, refl, ◌↔◌, String, true, false, [], ◌∷◌, ◌==◌, string_comparable, if◌then◌else◌,
}
use cloud_agent_platform.Guardian.{ApprovalDecision, approved}
use cloud_agent_platform.Events.{
  is_letter, event_type_pattern, split_idempotency_key, decimal_int, key_of, created, refused,
  new_domain_event_with_id, event_type_empty, event_type_mismatch, idempotency_key_mismatch,
}
use cloud_agent_platform.Events.EventType.{HasVersion, event_type_pattern_lem, has_colon}
use cloud_agent_platform.Events.Key.{new_domain_event_lem, split-key_of}

event_type_pattern_lem_example : (event_type_pattern "TaskCreatedV1" ≡ true) ↔ (
    (c : Char) × (rest : String) × (is_letter c ≡ true)
    × HasVersion rest
    × ("TaskCreatedV1" ≡ String.◌∷◌ c rest))
event_type_pattern_lem_example = event_type_pattern_lem "TaskCreatedV1"

patterns :
    (event_type_pattern "TaskCreatedV1" ≡ true)
    × (event_type_pattern "TaskCreatedV" ≡ false)
    × (event_type_pattern "TV1" ≡ false)
    × (event_type_pattern "VVV0" ≡ true)
    × (event_type_pattern "Task CreatedV1" ≡ false)
unfolding event_type_pattern
patterns = (refl, refl, refl, refl, refl)

split-key_of_example :
    split_idempotency_key (key_of "t1" "TaskCreatedV1" 3)
    ≡ "t1" ∷ "TaskCreatedV1" ∷ decimal_int 3 ∷ []
unfolding has_colon event_type_pattern
split-key_of_example = split-key_of "t1" "TaskCreatedV1" 3 refl refl

a_key : key_of "t1" "TaskCreatedV1" 18446744073709551615 ≡ "t1:TaskCreatedV1:-1"
unfolding key_of
a_key = refl

new_domain_event_lem_example :
    new_domain_event_with_id "e1" "Task" "a:b" "TaskCreatedV1" "{}" 5 1 ≡ (
      if event_type_pattern "TaskCreatedV1"
      then (if has_colon "a:b"
          then refused (idempotency_key_mismatch (key_of "a:b" "TaskCreatedV1" 1))
          else created record {
            event_id = "e1";
            aggregate_type = "Task";
            aggregate_id = "a:b";
            event_type = "TaskCreatedV1";
            payload = "{}";
            occurred_at = 5;
            idempotency_key = key_of "a:b" "TaskCreatedV1" 1;
            version = 1;
          })
      else refused (
          if ◌==◌ {C = String} "TaskCreatedV1" ""
          then event_type_empty
          else event_type_mismatch "TaskCreatedV1"))
new_domain_event_lem_example = new_domain_event_lem "e1" "Task" "a:b" "TaskCreatedV1" "{}" 5 1

abbrev decision : ApprovalDecision
decision = record {
  task_id = "t1";
  result = approved;
  reason = "";
  decided_by = "u";
  decided_at = 1;
}
