-- ===== src/Contracts/Answer.antt =====
-- `BehaviorDecision` and `FinalAnswer` of agent/contracts.py: the fields, and whether the models'
-- validators accept them. `EvidenceAssessment`, `RepairDecision`, `RepairRecord` and
-- `ObservationValidation` are in the sibling module of the evidence.
use governed_analytics_agent.Common.{
  String, Bool, true, false, not, ◌&&◌, Option, none, some, List, [], ◌∷◌, any_of,
}
use governed_analytics_agent.Contracts.Enums.{
  BehaviorAction, BehaviorReasonCode, FinalStatus, StopReason,
}
use governed_analytics_agent.Contracts.Json.{
  Members, object, json_has_forbidden_key, is_final_summary_forbidden_key,
}
use governed_analytics_agent.Events.Values.{distinct}
use governed_analytics_agent.Events.Vocabulary.{member}

pub record BehaviorDecision : Type 0 where
  pub action : BehaviorAction
  pub reason_code : BehaviorReasonCode
  pub missing_fields : List String
  pub user_message : String

-- `reason_code in expected_reasons[action]`
unfoldable pub is_expected_reason : BehaviorAction → BehaviorReasonCode → Bool
is_expected_reason BehaviorAction.execute BehaviorReasonCode.ready = true
is_expected_reason BehaviorAction.clarify BehaviorReasonCode.missing_metric = true
is_expected_reason BehaviorAction.clarify BehaviorReasonCode.missing_time_window = true
is_expected_reason BehaviorAction.clarify BehaviorReasonCode.missing_comparison_window = true
is_expected_reason BehaviorAction.clarify BehaviorReasonCode.ambiguous_metric = true
is_expected_reason BehaviorAction.refuse BehaviorReasonCode.unsafe_request = true
is_expected_reason BehaviorAction.refuse BehaviorReasonCode.sensitive_data_request = true
is_expected_reason BehaviorAction.unsupported BehaviorReasonCode.unsupported_analysis = true
is_expected_reason BehaviorAction.unsupported BehaviorReasonCode.unsupported_data_domain = true
is_expected_reason _ _ = false

abbrev pub is_clarify : BehaviorAction → Bool
is_clarify BehaviorAction.clarify = true
is_clarify _ = false

abbrev pub is_empty : List String → Bool
is_empty [] = true
is_empty (s ∷ ss) = false

-- `_validate_decision`
unfoldable pub validate_decision : BehaviorDecision → Bool
unfolding is_expected_reason
validate_decision d =
    distinct d.missing_fields
    && is_expected_reason d.action d.reason_code
    && not (is_clarify d.action && is_empty d.missing_fields)
    && not (not (is_clarify d.action) && not (is_empty d.missing_fields))

pub record FinalAnswer : Type 0 where
  pub status : FinalStatus
  pub stop_reason : StopReason
  pub answer : String
  pub evidence_ids : List String
  pub completed_dimensions : List String
  pub missing_dimensions : List String
  pub limitations : List String
  pub result_summary : Option Members

-- `stop_reason in allowed[status]`
unfoldable pub is_allowed_reason : FinalStatus → StopReason → Bool
is_allowed_reason FinalStatus.completed StopReason.answer_complete = true
is_allowed_reason FinalStatus.completed StopReason.premise_not_met = true
is_allowed_reason FinalStatus.partial StopReason.evidence_partial = true
is_allowed_reason FinalStatus.partial StopReason.result_truncated = true
is_allowed_reason FinalStatus.partial StopReason.sql_timeout = true
is_allowed_reason FinalStatus.partial StopReason.task_timeout = true
is_allowed_reason FinalStatus.clarification_required StopReason.missing_required_fields = true
is_allowed_reason FinalStatus.refused StopReason.unsafe_request = true
is_allowed_reason FinalStatus.refused StopReason.sensitive_data_request = true
is_allowed_reason FinalStatus.unsupported StopReason.unsupported_analysis = true
is_allowed_reason FinalStatus.unsupported StopReason.unsupported_data_domain = true
is_allowed_reason FinalStatus.budget_exhausted StopReason.cost_soft_cap = true
is_allowed_reason FinalStatus.budget_exhausted StopReason.cost_hard_cap = true
is_allowed_reason FinalStatus.budget_exhausted StopReason.llm_call_limit = true
is_allowed_reason FinalStatus.budget_exhausted StopReason.tool_call_limit = true
is_allowed_reason FinalStatus.budget_exhausted StopReason.execute_limit = true
is_allowed_reason FinalStatus.budget_exhausted StopReason.profile_limit = true
is_allowed_reason FinalStatus.budget_exhausted StopReason.analysis_loop_limit = true
is_allowed_reason FinalStatus.policy_blocked StopReason.sql_policy_rejected = true
is_allowed_reason FinalStatus.policy_blocked StopReason.sensitive_result_blocked = true
is_allowed_reason FinalStatus.model_unavailable StopReason.model_unavailable = true
is_allowed_reason FinalStatus.execution_failed StopReason.sql_timeout = true
is_allowed_reason FinalStatus.execution_failed StopReason.task_timeout = true
is_allowed_reason FinalStatus.execution_failed StopReason.database_error = true
is_allowed_reason FinalStatus.execution_failed StopReason.structured_output_invalid = true
is_allowed_reason FinalStatus.execution_failed StopReason.plan_invalid = true
is_allowed_reason FinalStatus.execution_failed StopReason.answer_contract_unmet = true
is_allowed_reason FinalStatus.execution_failed StopReason.repair_failed = true
is_allowed_reason FinalStatus.internal_error StopReason.internal_error = true
is_allowed_reason _ _ = false

abbrev pub is_unsafe_summary : Option Members → Bool
is_unsafe_summary none = false
is_unsafe_summary (some summary) =
    json_has_forbidden_key is_final_summary_forbidden_key (object summary)

-- `_validate_terminal_state`
unfoldable pub validate_terminal_state : FinalAnswer → Bool
unfolding is_allowed_reason
validate_terminal_state a =
    distinct a.evidence_ids
    && distinct a.completed_dimensions
    && distinct a.missing_dimensions
    && distinct a.limitations
    && not (any_of (λ d. member d a.missing_dimensions) a.completed_dimensions)
    && not (is_unsafe_summary a.result_summary)
    && is_allowed_reason a.status a.stop_reason
