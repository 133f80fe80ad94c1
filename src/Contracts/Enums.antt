-- ===== src/Contracts/Enums.antt =====
-- The enumerations of agent/contracts.py, with their wire texts where the program compares them.
use governed_analytics_agent.Common.{String}

pub data BehaviorAction : Type 0 where
  execute clarify refuse unsupported : BehaviorAction

pub data BehaviorReasonCode : Type 0 where
  ready missing_metric missing_time_window missing_comparison_window : BehaviorReasonCode
  ambiguous_metric unsafe_request sensitive_data_request : BehaviorReasonCode
  unsupported_analysis unsupported_data_domain : BehaviorReasonCode

pub data AnalysisType : Type 0 where
  simple comparison attribution : AnalysisType

pub data ActionType : Type 0 where
  metric_lookup schema_lookup profile execute_sql : ActionType

pub data ResultShape : Type 0 where
  scalar single_row table top_k : ResultShape

pub data FinalStatus : Type 0 where
  completed partial clarification_required refused unsupported budget_exhausted : FinalStatus
  policy_blocked model_unavailable execution_failed internal_error : FinalStatus

pub data RunLifecycleStatus : Type 0 where
  queued running terminal : RunLifecycleStatus

pub data AgentFinishReason : Type 0 where
  stop length content_filter tool_calls other unknown : AgentFinishReason

-- `ModelPurpose`
pub data ModelPurpose : Type 0 where
  behavior plan action synthesis repair : ModelPurpose

pub data AgentModelErrorCategory : Type 0 where
  invalid_request schema_identity_mismatch provider_call_failed : AgentModelErrorCategory
  provider_http_4xx provider_rate_limited provider_http_5xx : AgentModelErrorCategory
  provider_timeout provider_connection_error missing_content : AgentModelErrorCategory
  invalid_content_type invalid_json invalid_structure missing_usage : AgentModelErrorCategory
  invalid_usage missing_model fixture_script_mismatch : AgentModelErrorCategory
  budget_exceeded budget_reservation_failed repair_blocked : AgentModelErrorCategory
  repair_failed accounting_contract_failed cancelled : AgentModelErrorCategory

pub data StopReason : Type 0 where
  answer_complete premise_not_met evidence_partial missing_required_fields : StopReason
  unsupported_analysis unsupported_data_domain unsafe_request : StopReason
  sensitive_data_request sql_policy_rejected sensitive_result_blocked : StopReason
  cost_soft_cap cost_hard_cap llm_call_limit tool_call_limit execute_limit : StopReason
  profile_limit analysis_loop_limit sql_timeout task_timeout result_truncated : StopReason
  database_error model_unavailable structured_output_invalid plan_invalid : StopReason
  answer_contract_unmet repair_failed internal_error : StopReason

-- The texts of `FinalStatus`.
unfoldable pub final_status_value : FinalStatus → String
final_status_value FinalStatus.completed = "completed"
final_status_value FinalStatus.partial = "partial"
final_status_value FinalStatus.clarification_required = "clarification_required"
final_status_value FinalStatus.refused = "refused"
final_status_value FinalStatus.unsupported = "unsupported"
final_status_value FinalStatus.budget_exhausted = "budget_exhausted"
final_status_value FinalStatus.policy_blocked = "policy_blocked"
final_status_value FinalStatus.model_unavailable = "model_unavailable"
final_status_value FinalStatus.execution_failed = "execution_failed"
final_status_value FinalStatus.internal_error = "internal_error"

-- The texts of `StopReason`.
unfoldable pub stop_reason_value : StopReason → String
stop_reason_value StopReason.answer_complete = "answer_complete"
stop_reason_value StopReason.premise_not_met = "premise_not_met"
stop_reason_value StopReason.evidence_partial = "evidence_partial"
stop_reason_value StopReason.missing_required_fields = "missing_required_fields"
stop_reason_value StopReason.unsupported_analysis = "unsupported_analysis"
stop_reason_value StopReason.unsupported_data_domain = "unsupported_data_domain"
stop_reason_value StopReason.unsafe_request = "unsafe_request"
stop_reason_value StopReason.sensitive_data_request = "sensitive_data_request"
stop_reason_value StopReason.sql_policy_rejected = "sql_policy_rejected"
stop_reason_value StopReason.sensitive_result_blocked = "sensitive_result_blocked"
stop_reason_value StopReason.cost_soft_cap = "cost_soft_cap"
stop_reason_value StopReason.cost_hard_cap = "cost_hard_cap"
stop_reason_value StopReason.llm_call_limit = "llm_call_limit"
stop_reason_value StopReason.tool_call_limit = "tool_call_limit"
stop_reason_value StopReason.execute_limit = "execute_limit"
stop_reason_value StopReason.profile_limit = "profile_limit"
stop_reason_value StopReason.analysis_loop_limit = "analysis_loop_limit"
stop_reason_value StopReason.sql_timeout = "sql_timeout"
stop_reason_value StopReason.task_timeout = "task_timeout"
stop_reason_value StopReason.result_truncated = "result_truncated"
stop_reason_value StopReason.database_error = "database_error"
stop_reason_value StopReason.model_unavailable = "model_unavailable"
stop_reason_value StopReason.structured_output_invalid = "structured_output_invalid"
stop_reason_value StopReason.plan_invalid = "plan_invalid"
stop_reason_value StopReason.answer_contract_unmet = "answer_contract_unmet"
stop_reason_value StopReason.repair_failed = "repair_failed"
stop_reason_value StopReason.internal_error = "internal_error"
