-- ===== src/Events/Vocabulary.antt =====
-- The tables of runtime/events.py.
use governed_analytics_agent.Common.{
  String, Bool, false, ◌||◌, Option, none, some, List, [], ◌∷◌, ◌++◌, str_eq, if◌then◌else◌, Dict,
}

-- The keys of `_EVENT_NODES`.
pub data EventType : Type 0 where
  run_created run_started behavior_decided context_retrieved plan_created : EventType
  hypothesis_updated tool_started tool_completed tool_failed : EventType
  observation_validated evidence_assessed repair_started repair_completed : EventType
  budget_warning run_terminal : EventType

abbrev event_types : Dict EventType
event_types =
    ("run.created", run_created)
    ∷ ("run.started", run_started)
    ∷ ("behavior.decided", behavior_decided)
    ∷ ("context.retrieved", context_retrieved)
    ∷ ("plan.created", plan_created)
    ∷ ("hypothesis.updated", hypothesis_updated)
    ∷ ("tool.started", tool_started)
    ∷ ("tool.completed", tool_completed)
    ∷ ("tool.failed", tool_failed)
    ∷ ("observation.validated", observation_validated)
    ∷ ("evidence.assessed", evidence_assessed)
    ∷ ("repair.started", repair_started)
    ∷ ("repair.completed", repair_completed)
    ∷ ("budget.warning", budget_warning)
    ∷ ("run.terminal", run_terminal)
    ∷ []

unfoldable pub member : String → List String → Bool
member s [] = false
member s (t ∷ ts) = str_eq s t || member s ts

abbrev pub behavior_actions : List String
behavior_actions = "execute" ∷ "clarify" ∷ "refuse" ∷ "unsupported" ∷ []

abbrev pub behavior_reasons : List String
behavior_reasons =
    "ready" ∷ "missing_metric" ∷ "missing_time_window" ∷ "missing_comparison_window"
    ∷ "ambiguous_metric" ∷ "unsafe_request" ∷ "sensitive_data_request" ∷ "unsupported_analysis"
    ∷ "unsupported_data_domain" ∷ []

abbrev pub behavior_reason_by_action : Dict (List String)
behavior_reason_by_action =
    ("execute", "ready" ∷ [])
    ∷ (
      "clarify",
      "missing_metric" ∷ "missing_time_window" ∷ "missing_comparison_window" ∷ "ambiguous_metric"
          ∷ [],
    )
    ∷ ("refuse", "unsafe_request" ∷ "sensitive_data_request" ∷ [])
    ∷ ("unsupported", "unsupported_analysis" ∷ "unsupported_data_domain" ∷ [])
    ∷ []

abbrev pub missing_fields : List String
missing_fields =
    "metric" ∷ "time_window" ∷ "previous_window" ∷ "current_window" ∷ "comparison_window" ∷ []

abbrev pub analysis_types : List String
analysis_types = "simple" ∷ "comparison" ∷ "attribution" ∷ []

abbrev pub hypothesis_statuses : List String
hypothesis_statuses = "supported" ∷ "refuted" ∷ []

abbrev pub analysis_tools : List String
analysis_tools = "profile" ∷ "execute_sql" ∷ []

abbrev pub safe_tool_errors : List String
safe_tool_errors =
    "malformed_sql" ∷ "read_only_policy" ∷ "forbidden_relation" ∷ "forbidden_function"
    ∷ "nondeterministic_query" ∷ "output_shape_policy" ∷ "sensitive_output" ∷ "invalid_request"
    ∷ "not_found" ∷ "sql_timeout" ∷ "database_error" ∷ "tool_not_allowed_in_node"
    ∷ "internal_tool_error" ∷ []

abbrev pub validation_errors : List String
validation_errors =
    safe_tool_errors
    ++ ("unknown_tool_error" ∷ "policy_blocked" ∷ "sensitive_result_blocked" ∷ "result_truncated"
        ∷ "invalid_query_result_payload" ∷ "query_result_mismatch" ∷ "observation_link_mismatch"
        ∷ "column_contract_mismatch" ∷ "row_count_mismatch" ∷ "row_shape_mismatch"
        ∷ "limit_exceeded" ∷ "nullable_contract_mismatch" ∷ "type_contract_mismatch"
        ∷ "zero_denominator_contract_mismatch" ∷ "key_not_unique" ∷ "order_contract_mismatch"
        ∷ "answer_contract_unmet" ∷ [])

abbrev pub budget_reasons : List String
budget_reasons =
    "cost_soft_cap" ∷ "cost_hard_cap" ∷ "llm_call_limit" ∷ "tool_call_limit" ∷ "execute_limit"
    ∷ "profile_limit" ∷ "analysis_loop_limit" ∷ "task_timeout" ∷ "repair_failed" ∷ []

-- `_TERMINAL_REASONS`; its keys are `_FINAL_STATUSES`.
abbrev pub terminal_reasons : Dict (List String)
terminal_reasons =
    ("completed", "answer_complete" ∷ "premise_not_met" ∷ [])
    ∷ ("partial", "evidence_partial" ∷ "result_truncated" ∷ "sql_timeout" ∷ "task_timeout" ∷ [])
    ∷ ("clarification_required", "missing_required_fields" ∷ [])
    ∷ ("refused", "unsafe_request" ∷ "sensitive_data_request" ∷ [])
    ∷ ("unsupported", "unsupported_analysis" ∷ "unsupported_data_domain" ∷ [])
    ∷ (
      "budget_exhausted",
      "cost_soft_cap" ∷ "cost_hard_cap" ∷ "llm_call_limit" ∷ "tool_call_limit" ∷ "execute_limit"
          ∷ "profile_limit" ∷ "analysis_loop_limit" ∷ [],
    )
    ∷ ("policy_blocked", "sql_policy_rejected" ∷ "sensitive_result_blocked" ∷ [])
    ∷ ("model_unavailable", "model_unavailable" ∷ [])
    ∷ (
      "execution_failed",
      "sql_timeout" ∷ "task_timeout" ∷ "database_error" ∷ "structured_output_invalid"
          ∷ "plan_invalid" ∷ "answer_contract_unmet" ∷ "repair_failed" ∷ [],
    )
    ∷ ("internal_error", "internal_error" ∷ [])
    ∷ []

abbrev pub final_statuses : List String
final_statuses =
    "completed" ∷ "partial" ∷ "clarification_required" ∷ "refused" ∷ "unsupported"
    ∷ "budget_exhausted" ∷ "policy_blocked" ∷ "model_unavailable" ∷ "execution_failed"
    ∷ "internal_error" ∷ []

abbrev pub stop_reasons : List String
stop_reasons =
    "answer_complete" ∷ "premise_not_met" ∷ "evidence_partial" ∷ "missing_required_fields"
    ∷ "unsupported_analysis" ∷ "unsupported_data_domain" ∷ "unsafe_request"
    ∷ "sensitive_data_request" ∷ "sql_policy_rejected" ∷ "sensitive_result_blocked"
    ∷ "cost_soft_cap" ∷ "cost_hard_cap" ∷ "llm_call_limit" ∷ "tool_call_limit" ∷ "execute_limit"
    ∷ "profile_limit" ∷ "analysis_loop_limit" ∷ "sql_timeout" ∷ "task_timeout" ∷ "result_truncated"
    ∷ "database_error" ∷ "model_unavailable" ∷ "structured_output_invalid" ∷ "plan_invalid"
    ∷ "answer_contract_unmet" ∷ "repair_failed" ∷ "internal_error" ∷ []

abbrev budget_nodes : List String
budget_nodes =
    "decide_behavior" ∷ "retrieve_context" ∷ "build_plan" ∷ "route_action" ∷ "invoke_tool"
    ∷ "validate_observation" ∷ "judge_evidence" ∷ "replan" ∷ "repair" ∷ "synthesize" ∷ []

-- The values of `_EVENT_NODES`.
unfoldable pub event_nodes : EventType → List String
event_nodes run_created = "runtime" ∷ []
event_nodes run_started = "runtime" ∷ []
event_nodes behavior_decided = "decide_behavior" ∷ []
event_nodes context_retrieved = "retrieve_context" ∷ []
event_nodes plan_created = "build_plan" ∷ []
event_nodes hypothesis_updated = "judge_evidence" ∷ []
event_nodes tool_started = "invoke_tool" ∷ "repair" ∷ []
event_nodes tool_completed = "invoke_tool" ∷ "repair" ∷ []
event_nodes tool_failed = "invoke_tool" ∷ "repair" ∷ []
event_nodes observation_validated = "validate_observation" ∷ []
event_nodes evidence_assessed = "judge_evidence" ∷ []
event_nodes repair_started = "repair" ∷ []
event_nodes repair_completed = "repair" ∷ []
event_nodes budget_warning = budget_nodes
event_nodes run_terminal = "runtime" ∷ []

find_type : String → Dict EventType → Option EventType
find_type s [] = none
find_type s ((k, t) ∷ ts) = if str_eq s k then some t else find_type s ts

-- The event type that a text names.
unfoldable pub event_type_of : String → Option EventType
unfolding find_type
event_type_of s = find_type s event_types
