-- ===== src/Contracts/Every.antt =====
-- Facts about every member of an enumeration of agent/contracts.py, from their check on a list.
use governed_analytics_agent.Common.{◌≡◌, Bool, true, List, [], ◌∷◌, All, all_of, arith}
use governed_analytics_agent.Contracts.Enums.{
  FinalStatus, StopReason, BehaviorAction, BehaviorReasonCode,
}

-- A test that holds of all that is listed holds of each.
pub all_of_each :
    {A : Type 0} (test : A → Bool) (xs : List A)
    → all_of test xs ≡ true
    → All (λ x. test x ≡ true) xs
all_of_each test [] h = tt
all_of_each test (x ∷ xs) h = let rest = all_of_each test xs in ground (arith, rest)

abbrev pub every_stop_reason : List StopReason
every_stop_reason =
    StopReason.answer_complete ∷ StopReason.premise_not_met ∷ StopReason.evidence_partial
    ∷ StopReason.missing_required_fields ∷ StopReason.unsupported_analysis
    ∷ StopReason.unsupported_data_domain ∷ StopReason.unsafe_request
    ∷ StopReason.sensitive_data_request ∷ StopReason.sql_policy_rejected
    ∷ StopReason.sensitive_result_blocked ∷ StopReason.cost_soft_cap ∷ StopReason.cost_hard_cap
    ∷ StopReason.llm_call_limit ∷ StopReason.tool_call_limit ∷ StopReason.execute_limit
    ∷ StopReason.profile_limit ∷ StopReason.analysis_loop_limit ∷ StopReason.sql_timeout
    ∷ StopReason.task_timeout ∷ StopReason.result_truncated ∷ StopReason.database_error
    ∷ StopReason.model_unavailable ∷ StopReason.structured_output_invalid ∷ StopReason.plan_invalid
    ∷ StopReason.answer_contract_unmet ∷ StopReason.repair_failed ∷ StopReason.internal_error ∷ []

pub each_stop_reason : (P : StopReason → Type 0) → All P every_stop_reason → (x : StopReason) → P x
each_stop_reason P h StopReason.answer_complete = h.0
each_stop_reason P h StopReason.premise_not_met = h.1.0
each_stop_reason P h StopReason.evidence_partial = h.1.1.0
each_stop_reason P h StopReason.missing_required_fields = h.1.1.1.0
each_stop_reason P h StopReason.unsupported_analysis = h.1.1.1.1.0
each_stop_reason P h StopReason.unsupported_data_domain = h.1.1.1.1.1.0
each_stop_reason P h StopReason.unsafe_request = h.1.1.1.1.1.1.0
each_stop_reason P h StopReason.sensitive_data_request = h.1.1.1.1.1.1.1.0
each_stop_reason P h StopReason.sql_policy_rejected = h.1.1.1.1.1.1.1.1.0
each_stop_reason P h StopReason.sensitive_result_blocked = h.1.1.1.1.1.1.1.1.1.0
each_stop_reason P h StopReason.cost_soft_cap = h.1.1.1.1.1.1.1.1.1.1.0
each_stop_reason P h StopReason.cost_hard_cap = h.1.1.1.1.1.1.1.1.1.1.1.0
each_stop_reason P h StopReason.llm_call_limit = h.1.1.1.1.1.1.1.1.1.1.1.1.0
each_stop_reason P h StopReason.tool_call_limit = h.1.1.1.1.1.1.1.1.1.1.1.1.1.0
each_stop_reason P h StopReason.execute_limit = h.1.1.1.1.1.1.1.1.1.1.1.1.1.1.0
each_stop_reason P h StopReason.profile_limit = h.1.1.1.1.1.1.1.1.1.1.1.1.1.1.1.0
each_stop_reason P h StopReason.analysis_loop_limit = h.1.1.1.1.1.1.1.1.1.1.1.1.1.1.1.1.0
each_stop_reason P h StopReason.sql_timeout = h.1.1.1.1.1.1.1.1.1.1.1.1.1.1.1.1.1.0
each_stop_reason P h StopReason.task_timeout = h.1.1.1.1.1.1.1.1.1.1.1.1.1.1.1.1.1.1.0
each_stop_reason P h StopReason.result_truncated = h.1.1.1.1.1.1.1.1.1.1.1.1.1.1.1.1.1.1.1.0
each_stop_reason P h StopReason.database_error = h.1.1.1.1.1.1.1.1.1.1.1.1.1.1.1.1.1.1.1.1.0
each_stop_reason P h StopReason.model_unavailable = h.1.1.1.1.1.1.1.1.1.1.1.1.1.1.1.1.1.1.1.1.1.0
each_stop_reason P h StopReason.structured_output_invalid =
    h.1.1.1.1.1.1.1.1.1.1.1.1.1.1.1.1.1.1.1.1.1.1.0
each_stop_reason P h StopReason.plan_invalid = h.1.1.1.1.1.1.1.1.1.1.1.1.1.1.1.1.1.1.1.1.1.1.1.0
each_stop_reason P h StopReason.answer_contract_unmet =
    h.1.1.1.1.1.1.1.1.1.1.1.1.1.1.1.1.1.1.1.1.1.1.1.1.0
each_stop_reason P h StopReason.repair_failed =
    h.1.1.1.1.1.1.1.1.1.1.1.1.1.1.1.1.1.1.1.1.1.1.1.1.1.0
each_stop_reason P h StopReason.internal_error =
    h.1.1.1.1.1.1.1.1.1.1.1.1.1.1.1.1.1.1.1.1.1.1.1.1.1.1.0

abbrev pub every_final_status : List FinalStatus
every_final_status =
    FinalStatus.completed ∷ FinalStatus.partial ∷ FinalStatus.clarification_required
    ∷ FinalStatus.refused ∷ FinalStatus.unsupported ∷ FinalStatus.budget_exhausted
    ∷ FinalStatus.policy_blocked ∷ FinalStatus.model_unavailable ∷ FinalStatus.execution_failed
    ∷ FinalStatus.internal_error ∷ []

pub each_final_status :
    (P : FinalStatus → Type 0) → All P every_final_status → (x : FinalStatus) → P x
each_final_status P h FinalStatus.completed = h.0
each_final_status P h FinalStatus.partial = h.1.0
each_final_status P h FinalStatus.clarification_required = h.1.1.0
each_final_status P h FinalStatus.refused = h.1.1.1.0
each_final_status P h FinalStatus.unsupported = h.1.1.1.1.0
each_final_status P h FinalStatus.budget_exhausted = h.1.1.1.1.1.0
each_final_status P h FinalStatus.policy_blocked = h.1.1.1.1.1.1.0
each_final_status P h FinalStatus.model_unavailable = h.1.1.1.1.1.1.1.0
each_final_status P h FinalStatus.execution_failed = h.1.1.1.1.1.1.1.1.0
each_final_status P h FinalStatus.internal_error = h.1.1.1.1.1.1.1.1.1.0

abbrev pub every_behavior_action : List BehaviorAction
every_behavior_action =
    BehaviorAction.execute ∷ BehaviorAction.clarify ∷ BehaviorAction.refuse
    ∷ BehaviorAction.unsupported ∷ []

pub each_behavior_action :
    (P : BehaviorAction → Type 0) → All P every_behavior_action → (x : BehaviorAction) → P x
each_behavior_action P h BehaviorAction.execute = h.0
each_behavior_action P h BehaviorAction.clarify = h.1.0
each_behavior_action P h BehaviorAction.refuse = h.1.1.0
each_behavior_action P h BehaviorAction.unsupported = h.1.1.1.0

abbrev pub every_reason_code : List BehaviorReasonCode
every_reason_code =
    BehaviorReasonCode.ready ∷ BehaviorReasonCode.missing_metric
    ∷ BehaviorReasonCode.missing_time_window ∷ BehaviorReasonCode.missing_comparison_window
    ∷ BehaviorReasonCode.ambiguous_metric ∷ BehaviorReasonCode.unsafe_request
    ∷ BehaviorReasonCode.sensitive_data_request ∷ BehaviorReasonCode.unsupported_analysis
    ∷ BehaviorReasonCode.unsupported_data_domain ∷ []

pub each_reason_code :
    (P : BehaviorReasonCode → Type 0) → All P every_reason_code → (x : BehaviorReasonCode) → P x
each_reason_code P h BehaviorReasonCode.ready = h.0
each_reason_code P h BehaviorReasonCode.missing_metric = h.1.0
each_reason_code P h BehaviorReasonCode.missing_time_window = h.1.1.0
each_reason_code P h BehaviorReasonCode.missing_comparison_window = h.1.1.1.0
each_reason_code P h BehaviorReasonCode.ambiguous_metric = h.1.1.1.1.0
each_reason_code P h BehaviorReasonCode.unsafe_request = h.1.1.1.1.1.0
each_reason_code P h BehaviorReasonCode.sensitive_data_request = h.1.1.1.1.1.1.0
each_reason_code P h BehaviorReasonCode.unsupported_analysis = h.1.1.1.1.1.1.1.0
each_reason_code P h BehaviorReasonCode.unsupported_data_domain = h.1.1.1.1.1.1.1.1.0
