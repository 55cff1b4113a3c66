-- ===== src/Errors/Codes.antt =====
-- The codes of internal/domain/errors.go.
use cloud_agent_platform.Base.{String}

abbrev pub code_l1_db_connect : String
code_l1_db_connect = "L1001"

abbrev pub code_l1_db_query : String
code_l1_db_query = "L1002"

abbrev pub code_l1_db_tx : String
code_l1_db_tx = "L1003"

abbrev pub code_l1_record_not_found : String
code_l1_record_not_found = "L1004"

abbrev pub code_l1_unique_constraint : String
code_l1_unique_constraint = "L1005"

abbrev pub code_l1_foreign_key : String
code_l1_foreign_key = "L1006"

abbrev pub code_l1_outbox_poll : String
code_l1_outbox_poll = "L1007"

abbrev pub code_l1_outbox_forward : String
code_l1_outbox_forward = "L1008"

abbrev pub code_l1_redis_connect : String
code_l1_redis_connect = "L1009"

abbrev pub code_l1_redis_op : String
code_l1_redis_op = "L1010"

abbrev pub code_l1_redis_lock : String
code_l1_redis_lock = "L1011"

abbrev pub code_l1_minio_op : String
code_l1_minio_op = "L1012"

abbrev pub code_l1_migration : String
code_l1_migration = "L1013"

abbrev pub code_l2_invalid_state_transition : String
code_l2_invalid_state_transition = "L1200"

abbrev pub code_l2_business_rule_violated : String
code_l2_business_rule_violated = "L1201"

abbrev pub code_l2_optimistic_lock : String
code_l2_optimistic_lock = "L1202"

abbrev pub code_l2_invariant_broken : String
code_l2_invariant_broken = "L1203"

abbrev pub code_l2_event_serialization : String
code_l2_event_serialization = "L1204"

abbrev pub code_l2_param_validation : String
code_l2_param_validation = "L1205"

abbrev pub code_l2_aggregate_not_found : String
code_l2_aggregate_not_found = "L1206"

abbrev pub code_l2_context_exceeded : String
code_l2_context_exceeded = "L1207"

abbrev pub code_l2_invalid_input : String
code_l2_invalid_input = "L1208"

abbrev pub code_l2_invalid_state : String
code_l2_invalid_state = "L1209"

abbrev pub code_l2_not_found : String
code_l2_not_found = "L1210"

abbrev pub code_l2_unauthorized : String
code_l2_unauthorized = "L1211"

abbrev pub code_l2_operation_failed : String
code_l2_operation_failed = "L1212"

abbrev pub code_l2_invalid_operation : String
code_l2_invalid_operation = "L1213"

abbrev pub code_l3_authn_failed : String
code_l3_authn_failed = "L1400"

abbrev pub code_l3_authz_denied : String
code_l3_authz_denied = "L1401"

abbrev pub code_l3_rate_limited : String
code_l3_rate_limited = "L1402"

abbrev pub code_l3_authz_svc_down : String
code_l3_authz_svc_down = "L1403"

abbrev pub code_l3_invalid_api_key : String
code_l3_invalid_api_key = "L1404"

abbrev pub code_l3_token_expired : String
code_l3_token_expired = "L1405"

abbrev pub code_l3_insufficient_quota : String
code_l3_insufficient_quota = "L1406"

abbrev pub code_l4_task_not_found : String
code_l4_task_not_found = "L1600"

abbrev pub code_l4_task_state_invalid : String
code_l4_task_state_invalid = "L1601"

abbrev pub code_l4_subtask_not_found : String
code_l4_subtask_not_found = "L1602"

abbrev pub code_l4_agent_unavailable : String
code_l4_agent_unavailable = "L1603"

abbrev pub code_l4_orchestration_failed : String
code_l4_orchestration_failed = "L1604"

abbrev pub code_l4_plugin_invoke : String
code_l4_plugin_invoke = "L1605"

abbrev pub code_l4_context_budget : String
code_l4_context_budget = "L1606"

abbrev pub code_l4_worker_acquire : String
code_l4_worker_acquire = "L1607"

abbrev pub code_l4_llm_route : String
code_l4_llm_route = "L1608"

abbrev pub code_l4_llm_invoke : String
code_l4_llm_invoke = "L1609"

abbrev pub code_l4_sandbox_create : String
code_l4_sandbox_create = "L1610"

abbrev pub code_l4_sandbox_destroy : String
code_l4_sandbox_destroy = "L1611"

abbrev pub code_l4_git_op : String
code_l4_git_op = "L1612"

abbrev pub code_l4_tool_denied : String
code_l4_tool_denied = "L1613"

abbrev pub code_l4_confirmation_timeout : String
code_l4_confirmation_timeout = "L1614"

abbrev pub code_l4_decompose_failed : String
code_l4_decompose_failed = "L1615"

abbrev pub code_l4_agent_match : String
code_l4_agent_match = "L1616"

abbrev pub code_l5_invalid_request : String
code_l5_invalid_request = "L1800"

abbrev pub code_l5_route_not_found : String
code_l5_route_not_found = "L1801"

abbrev pub code_l5_ws_connect : String
code_l5_ws_connect = "L1802"

abbrev pub code_l5_ws_message : String
code_l5_ws_message = "L1803"

abbrev pub code_l5_protocol_error : String
code_l5_protocol_error = "L1804"

abbrev pub code_l5_internal_error : String
code_l5_internal_error = "L1805"

abbrev pub code_l5_service_unavailable : String
code_l5_service_unavailable = "L1806"

abbrev pub code_l5_payload_too_large : String
code_l5_payload_too_large = "L1807"

abbrev pub code_l5_timeout : String
code_l5_timeout = "L1808"
