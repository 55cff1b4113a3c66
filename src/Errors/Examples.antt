-- ===== src/Errors/Examples.antt =====
-- The theorems on errors at concrete errors, and tests.
use cloud_agent_platform.Base.{
  String, true, none, some, List, [], ◌∷◌, ◌≡◌, ◌↔◌, refl, string_comparable,
}
use cloud_agent_platform.Errors.{
  AppError, Err, plain, wrapped, Value, text, number, as_error, error_text, with_cause,
  with_details, entries, code_is, code_as,
}
use cloud_agent_platform.Errors.Codes.{code_l1_db_query}
use cloud_agent_platform.Errors.Storage.{new_l1_db_query_error}
use cloud_agent_platform.Errors.Services.{new_l4_task_not_found_error}
use cloud_agent_platform.Errors.Gateway.{new_l5_payload_too_large_error}
use cloud_agent_platform.Errors.Chains.{HasCode, code_is_lem, code_as-with_cause}
use cloud_agent_platform.Errors.Details.{IsMap, get_detail, or_else, with_details_lem}

abbrev refused : AppError
unfolding new_l1_db_query_error
refused = new_l1_db_query_error (plain "connection refused")

abbrev missing_task : AppError
unfolding new_l4_task_not_found_error
missing_task = new_l4_task_not_found_error "t1"

abbrev chain : Err
chain = wrapped "load: query failed" (as_error refused)

code_is_lem_example : (code_is chain code_l1_db_query ≡ true) ↔ HasCode code_l1_db_query chain
code_is_lem_example = code_is_lem chain code_l1_db_query

code_as-with_cause_example :
    (code_as (as_error (with_cause missing_task chain)) code_l1_db_query ≡ none)
    × (code_is (as_error (with_cause missing_task chain)) code_l1_db_query
        ≡ code_is chain code_l1_db_query)
unfolding missing_task
code_as-with_cause_example = code_as-with_cause missing_task chain code_l1_db_query refl

abbrev more : List (String × Value)
more = ("task_id", text "t2") ∷ ("attempt", number 3) ∷ []

with_details_lem_example :
    ((record (with_details missing_task (some more)) { details = missing_task.details })
      ≡ missing_task)
    × (get_detail "task_id" (entries (with_details missing_task (some more)).details)
        ≡ or_else (get_detail "task_id" more) (get_detail "task_id" (entries missing_task.details)))
unfolding missing_task new_l4_task_not_found_error IsMap get_detail
with_details_lem_example =
    with_details_lem missing_task (some more) "task_id" (refl, (refl, tt)) (refl, tt)

chain_is_query : code_is (as_error (with_cause missing_task chain)) code_l1_db_query ≡ true
unfolding code_is with_cause missing_task refused
chain_is_query = refl

refused_text :
    error_text (as_error refused) ≡ "L1002: database query failed (caused by: connection refused)"
unfolding error_text new_l1_db_query_error refused
refused_text = refl

too_large_text :
    (new_l5_payload_too_large_error 20 10).message
    ≡ "request payload too large: 20 bytes (limit: 10)"
unfolding new_l5_payload_too_large_error
too_large_text = refl
