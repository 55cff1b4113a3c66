-- ===== src/Errors/Services.antt =====
-- The constructors of the L4-Service errors of internal/domain/errors.go.
use cloud_agent_platform.Base.{ℕ, String, none, some, List, [], ◌∷◌}
use Prim.Native.String.{◌++◌ as str_append}
use cloud_agent_platform.Lifecycle.{
  TaskStatus, SubtaskType, AgentRole, status_to_string, agent_role_to_string,
  subtask_type_to_string,
}
use cloud_agent_platform.Events.{decimal_int}
use cloud_agent_platform.Errors.{AppError, Err, nil, service, text, number, statuses}
use cloud_agent_platform.Errors.Codes.{
  code_l4_task_not_found, code_l4_task_state_invalid, code_l4_subtask_not_found,
  code_l4_agent_unavailable, code_l4_orchestration_failed, code_l4_plugin_invoke,
  code_l4_context_budget, code_l4_worker_acquire, code_l4_llm_route, code_l4_llm_invoke,
  code_l4_sandbox_create, code_l4_sandbox_destroy, code_l4_git_op, code_l4_tool_denied,
  code_l4_confirmation_timeout, code_l4_decompose_failed, code_l4_agent_match,
}

-- A list of states as `%v` prints it, without the brackets.
unfoldable pub statuses_text_from : List TaskStatus → String
unfolding status_to_string
statuses_text_from [] = ""
statuses_text_from (s ∷ []) = status_to_string s
statuses_text_from (s ∷ rest) =
    str_append (status_to_string s) (str_append " " (statuses_text_from rest))

abbrev pub statuses_text : List TaskStatus → String
statuses_text ss = str_append "[" (str_append (statuses_text_from ss) "]")

unfoldable pub new_l4_task_not_found_error : String → AppError
new_l4_task_not_found_error task_id = record {
  code = code_l4_task_not_found;
  message = str_append "task not found: " task_id;
  layer = service;
  details = some (("task_id", text task_id) ∷ []);
  cause = nil;
}

unfoldable pub new_l4_task_state_invalid_error : String → TaskStatus → List TaskStatus → AppError
unfolding status_to_string
new_l4_task_state_invalid_error task_id current_status expected = record {
  code = code_l4_task_state_invalid;
  message = str_append "task " (
      str_append task_id (
        str_append " is in state " (
          str_append (status_to_string current_status)
            (str_append ", expected one of " ((statuses_text expected))))));
  layer = service;
  details = some (
      ("task_id", text task_id)
      ∷ ("current_status", text (status_to_string current_status))
      ∷ ("expected_states", statuses expected)
      ∷ []);
  cause = nil;
}

unfoldable pub new_l4_subtask_not_found_error : String → AppError
new_l4_subtask_not_found_error subtask_id = record {
  code = code_l4_subtask_not_found;
  message = str_append "subtask not found: " subtask_id;
  layer = service;
  details = some (("subtask_id", text subtask_id) ∷ []);
  cause = nil;
}

unfoldable pub new_l4_agent_unavailable_error : AgentRole → AppError
unfolding agent_role_to_string
new_l4_agent_unavailable_error role = record {
  code = code_l4_agent_unavailable;
  message = str_append "no available agent for role: " ((agent_role_to_string role));
  layer = service;
  details = some (("role", text (agent_role_to_string role)) ∷ []);
  cause = nil;
}

unfoldable pub new_l4_orchestration_failed_error : String → Err → AppError
new_l4_orchestration_failed_error reason cause = record {
  code = code_l4_orchestration_failed;
  message = str_append "orchestration failed: " reason;
  layer = service;
  details = some (("reason", text reason) ∷ []);
  cause = cause;
}

unfoldable pub new_l4_plugin_invoke_error : String → String → Err → AppError
new_l4_plugin_invoke_error plugin method cause = record {
  code = code_l4_plugin_invoke;
  message =
      str_append "plugin "
        (str_append plugin (str_append "." (str_append method " invocation failed")));
  layer = service;
  details = some (("plugin", text plugin) ∷ ("method", text method) ∷ []);
  cause = cause;
}

unfoldable pub new_l4_context_budget_error : String → ℕ → ℕ → AppError
unfolding decimal_int
new_l4_context_budget_error task_id budget used = record {
  code = code_l4_context_budget;
  message = str_append "task " (
      str_append task_id (
        str_append " context exceeds token budget: "
          (str_append (decimal_int used) (str_append " > " ((decimal_int budget))))));
  layer = service;
  details =
      some (("task_id", text task_id) ∷ ("budget", number budget) ∷ ("used", number used) ∷ []);
  cause = nil;
}

unfoldable pub new_l4_worker_acquire_error : Err → AppError
new_l4_worker_acquire_error cause = record {
  code = code_l4_worker_acquire;
  message = "failed to acquire worker from pool";
  layer = service;
  details = none;
  cause = cause;
}

unfoldable pub new_l4_llm_route_error : SubtaskType → String → AppError
unfolding subtask_type_to_string
new_l4_llm_route_error task_type reason = record {
  code = code_l4_llm_route;
  message =
      str_append "LLM routing failed for task type "
        (str_append (subtask_type_to_string task_type) (str_append ": " reason));
  layer = service;
  details =
      some (("task_type", text (subtask_type_to_string task_type)) ∷ ("reason", text reason) ∷ []);
  cause = nil;
}

unfoldable pub new_l4_llm_invoke_error : String → Err → AppError
new_l4_llm_invoke_error model cause = record {
  code = code_l4_llm_invoke;
  message = str_append "LLM invocation failed (model: " (str_append model ")");
  layer = service;
  details = some (("model", text model) ∷ []);
  cause = cause;
}

unfoldable pub new_l4_sandbox_create_error : String → Err → AppError
new_l4_sandbox_create_error backend cause = record {
  code = code_l4_sandbox_create;
  message = str_append "sandbox creation failed (backend: " (str_append backend ")");
  layer = service;
  details = some (("backend", text backend) ∷ []);
  cause = cause;
}

unfoldable pub new_l4_sandbox_destroy_error : String → Err → AppError
new_l4_sandbox_destroy_error worker_id cause = record {
  code = code_l4_sandbox_destroy;
  message = str_append "sandbox destruction failed (worker: " (str_append worker_id ")");
  layer = service;
  details = some (("worker_id", text worker_id) ∷ []);
  cause = cause;
}

unfoldable pub new_l4_git_op_error : String → String → Err → AppError
new_l4_git_op_error op repo cause = record {
  code = code_l4_git_op;
  message = str_append "git " (str_append op (str_append " failed for " repo));
  layer = service;
  details = some (("operation", text op) ∷ ("repository", text repo) ∷ []);
  cause = cause;
}

unfoldable pub new_l4_tool_denied_error : String → String → AppError
new_l4_tool_denied_error tool_name reason = record {
  code = code_l4_tool_denied;
  message =
      str_append "tool execution denied: "
        (str_append tool_name (str_append " (" (str_append reason ")")));
  layer = service;
  details = some (("tool_name", text tool_name) ∷ ("reason", text reason) ∷ []);
  cause = nil;
}

unfoldable pub new_l4_confirmation_timeout_error : String → ℕ → AppError
unfolding decimal_int
new_l4_confirmation_timeout_error task_id timeout_seconds = record {
  code = code_l4_confirmation_timeout;
  message = str_append "user confirmation timeout for task " (
      str_append task_id
        (str_append " after " (str_append (decimal_int timeout_seconds) " seconds")));
  layer = service;
  details = some (("task_id", text task_id) ∷ ("timeout_seconds", number timeout_seconds) ∷ []);
  cause = nil;
}

unfoldable pub new_l4_decompose_failed_error : String → String → Err → AppError
new_l4_decompose_failed_error task_id reason cause = record {
  code = code_l4_decompose_failed;
  message =
      str_append "task decomposition failed for " (str_append task_id (str_append ": " reason));
  layer = service;
  details = some (("task_id", text task_id) ∷ ("reason", text reason) ∷ []);
  cause = cause;
}

unfoldable pub new_l4_agent_match_error : SubtaskType → AppError
unfolding subtask_type_to_string
new_l4_agent_match_error subtask_type = record {
  code = code_l4_agent_match;
  message =
      str_append "no matching agent template found for subtask type: "
        ((subtask_type_to_string subtask_type));
  layer = service;
  details = some (("subtask_type", text (subtask_type_to_string subtask_type)) ∷ []);
  cause = nil;
}
