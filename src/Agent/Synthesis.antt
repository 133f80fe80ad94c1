-- ===== src/Agent/Synthesis.antt =====
-- The final answer: `_assessment`, `_valid_synthesis`, `_status_for_reason`,
-- `_deterministic_answer` and the answer of `finalize` of agent/nodes/synthesis.py, with
-- `behavior_stop_reason` and `safe_error_stop_reason` of agent/nodes/behavior.py.
pub mod Disjoint
pub mod Valid
pub mod Agrees
use Prim.Native.String.{◌++◌ as append}
use governed_analytics_agent.Common.{
  String, Bool, true, false, not, ◌&&◌, ◌||◌, Option, none, some, List, [], ◌∷◌, map, length, ◌==◌,
  if◌then◌else◌, all_of, Dict, lookup, is_none,
}
use governed_analytics_agent.Agent.Assessment.{assess_evidence, verified_of, hypotheses_of}
use governed_analytics_agent.Agent.Summary.{result_summary}
use governed_analytics_agent.Agent.State.{AgentState, last_of}
use governed_analytics_agent.Contracts.Answer.{BehaviorDecision, FinalAnswer}
use governed_analytics_agent.Contracts.Enums.{
  BehaviorAction, BehaviorReasonCode, FinalStatus, StopReason, stop_reason_value,
}
use governed_analytics_agent.Contracts.Evidence.{EvidenceItem, EvidenceAssessment}
use governed_analytics_agent.Contracts.Json.{
  Json, Elements, Members, NumericValue, null, text, array, object, nil, cons, empty, entry,
}
use governed_analytics_agent.Contracts.Plan.{TypedMetricPlan, subset}
use governed_analytics_agent.Contracts.Trace.{same_texts}

-- `behavior_stop_reason`
unfoldable pub behavior_stop_reason : BehaviorAction → BehaviorReasonCode → Option StopReason
behavior_stop_reason BehaviorAction.execute _ = none
behavior_stop_reason BehaviorAction.clarify _ = some StopReason.missing_required_fields
behavior_stop_reason _ BehaviorReasonCode.unsafe_request = some StopReason.unsafe_request
behavior_stop_reason _ BehaviorReasonCode.sensitive_data_request =
    some StopReason.sensitive_data_request
behavior_stop_reason _ BehaviorReasonCode.unsupported_data_domain =
    some StopReason.unsupported_data_domain
behavior_stop_reason _ _ = some StopReason.unsupported_analysis

-- `_assessment`
unfoldable pub assessment : AgentState → Option EvidenceAssessment
assessment s = elim (last_of s.plan_revisions) [
  | none ↦ none
  | some plan ↦ some (assess_evidence plan s.evidence)
]

-- `_status_for_reason`
unfoldable pub status_for_reason : StopReason → FinalStatus
status_for_reason StopReason.missing_required_fields = FinalStatus.clarification_required
status_for_reason StopReason.unsafe_request = FinalStatus.refused
status_for_reason StopReason.sensitive_data_request = FinalStatus.refused
status_for_reason StopReason.unsupported_analysis = FinalStatus.unsupported
status_for_reason StopReason.unsupported_data_domain = FinalStatus.unsupported
status_for_reason StopReason.cost_soft_cap = FinalStatus.budget_exhausted
status_for_reason StopReason.cost_hard_cap = FinalStatus.budget_exhausted
status_for_reason StopReason.llm_call_limit = FinalStatus.budget_exhausted
status_for_reason StopReason.tool_call_limit = FinalStatus.budget_exhausted
status_for_reason StopReason.execute_limit = FinalStatus.budget_exhausted
status_for_reason StopReason.profile_limit = FinalStatus.budget_exhausted
status_for_reason StopReason.analysis_loop_limit = FinalStatus.budget_exhausted
status_for_reason StopReason.sql_policy_rejected = FinalStatus.policy_blocked
status_for_reason StopReason.sensitive_result_blocked = FinalStatus.policy_blocked
status_for_reason StopReason.result_truncated = FinalStatus.partial
status_for_reason StopReason.model_unavailable = FinalStatus.model_unavailable
status_for_reason StopReason.internal_error = FinalStatus.internal_error
status_for_reason _ = FinalStatus.execution_failed

-- The answers' texts.
abbrev pub complete_text : String
complete_text = "已基于受治理且验证通过的证据完成分析。"

abbrev pub refuted_text : String
refuted_text = "受治理证据表明分析前提不成立。"

abbrev pub partial_text : String
partial_text = "已返回当前验证通过的部分证据, 分析尚未完整。"

abbrev pub late_text : String
late_text = "分析在形成可验证证据前超时。"

abbrev pub timeout_text : String
timeout_text = "已返回超时前验证通过的部分证据, 分析尚未完整。"

abbrev pub truncated_text : String
truncated_text = "结果达到受治理行数边界, 当前证据可能不完整。"

abbrev pub internal_text : String
internal_text = "分析因内部受控错误终止。"

abbrev pub final_answer :
    FinalStatus
    → StopReason
    → String
    → List String
    → List String
    → List String
    → List String
    → Option Members
    → FinalAnswer
final_answer status reason answer ids completed missing limitations summary = record {
  status = status;
  stop_reason = reason;
  answer = answer;
  evidence_ids = ids;
  completed_dimensions = completed;
  missing_dimensions = missing;
  limitations = limitations;
  result_summary = summary;
}

abbrev pub resolved_of : Option EvidenceAssessment → List String
resolved_of none = []
resolved_of (some a) = a.resolved_hypotheses

abbrev pub gaps_of : Option EvidenceAssessment → List String → List String
gaps_of none gaps = gaps
gaps_of (some a) gaps = a.gaps

abbrev pub is_complete : Option EvidenceAssessment → Bool
is_complete none = false
is_complete (some a) = a.complete

abbrev pub is_premise_not_met : Option EvidenceAssessment → Bool
is_premise_not_met none = false
is_premise_not_met (some a) = a.premise_not_met

abbrev pub ids_of : List EvidenceItem → List String
ids_of = map (λ item. item.evidence_id)

abbrev behavior_text : BehaviorAction → String
behavior_text BehaviorAction.clarify = "请补充完成分析所需的指标或时间范围。"
behavior_text BehaviorAction.refuse = "该请求不符合受治理分析的安全要求。"
behavior_text _ = "当前受治理分析范围不支持该请求。"

abbrev reason_text : StopReason → String
reason_text StopReason.cost_hard_cap = "预算不足, 未发起分析调用。"
reason_text StopReason.cost_soft_cap = "已达到成本软上限, 且尚无可用证据。"
reason_text _ = "分析未能形成可验证答案。"

abbrev pub failure_text : Option BehaviorDecision → StopReason → String
failure_text none reason = reason_text reason
failure_text (some d) reason = elim d.action [
  | BehaviorAction.execute ↦ reason_text reason
  | action ↦ behavior_text action
]

abbrev pub or_reason : Option StopReason → StopReason → StopReason
or_reason none d = d
or_reason (some r) d = r

-- The class of a stop reason that the first branches test.
pub data StopClass : Type 0 where
  internal truncated : StopClass
  timed_out : StopReason → StopClass
  ordinary : StopClass

unfoldable pub stop_class : Option StopReason → StopClass
stop_class (some StopReason.internal_error) = internal
stop_class (some StopReason.result_truncated) = truncated
stop_class (some StopReason.sql_timeout) = timed_out StopReason.sql_timeout
stop_class (some StopReason.task_timeout) = timed_out StopReason.task_timeout
stop_class _ = ordinary

-- f"stopped:{reason.value}"
abbrev pub stopped : StopReason → String
stopped reason = append "stopped:" (stop_reason_value reason)

module _ (decimal_text : NumericValue → String) where
  -- The branches behind those on the stop reason.
  unfoldable pub ordinary_answer : AgentState → FinalAnswer
  unfolding status_for_reason assessment
  ordinary_answer s =
      let ids = ids_of (verified_of s.evidence) in
      let assessed = assessment s in
      let completed = resolved_of assessed in
      let gaps = gaps_of assessed s.evidence_gaps in
      let summary = some (result_summary decimal_text s) in
      let reason = or_reason s.stop_reason StopReason.answer_contract_unmet in
      let because = stopped (or_reason s.stop_reason StopReason.evidence_partial) in
      let complete =
        final_answer FinalStatus.completed StopReason.answer_complete complete_text ids completed []
          [] summary in
      let refuted =
        final_answer FinalStatus.completed StopReason.premise_not_met refuted_text ids completed []
          [] summary in
      let partial =
        final_answer FinalStatus.partial StopReason.evidence_partial partial_text ids completed gaps
          (because ∷ []) summary in
      let failure =
        final_answer (status_for_reason reason) reason (failure_text s.behavior reason) [] [] gaps
          [] summary in
      if is_complete assessed
      then complete
      else if is_premise_not_met assessed
      then refuted
      else elim (verified_of s.evidence) [ [] ↦ failure | e ∷ es ↦ partial ]

  -- `_deterministic_answer`
  unfoldable pub deterministic_answer : AgentState → FinalAnswer
  unfolding assessment stop_class ordinary_answer
  deterministic_answer s =
      let ids = ids_of (verified_of s.evidence) in
      let completed = resolved_of (assessment s) in
      let gaps = gaps_of (assessment s) s.evidence_gaps in
      let summary = some (result_summary decimal_text s) in
      elim (stop_class s.stop_reason) [
        | internal ↦
            final_answer FinalStatus.internal_error StopReason.internal_error internal_text [] [] []
              [] none
        | truncated ↦
            final_answer FinalStatus.partial StopReason.result_truncated truncated_text ids
              completed gaps ("result_truncated" ∷ []) summary
        | timed_out reason ↦ elim (verified_of s.evidence) [
          | [] ↦
              final_answer FinalStatus.execution_failed reason late_text [] [] gaps
                (stopped reason ∷ []) summary
          | e ∷ es ↦
              final_answer FinalStatus.partial reason timeout_text ids completed gaps
                (stopped reason ∷ []) summary
        ]
        | ordinary ↦ ordinary_answer s
      ]

  -- The answer of `finalize`: that of the state if it names verified evidence only.
  unfoldable pub finalized_answer : AgentState → FinalAnswer
  unfolding deterministic_answer
  finalized_answer s = elim s.final_answer [
    | none ↦ deterministic_answer s
    | some answer ↦
        if subset answer.evidence_ids (ids_of (verified_of s.evidence))
        then answer
        else deterministic_answer s
  ]

abbrev pub same_status : FinalStatus → FinalStatus → Bool
same_status FinalStatus.completed FinalStatus.completed = true
same_status FinalStatus.partial FinalStatus.partial = true
same_status _ _ = false

abbrev pub same_reason : Option StopReason → StopReason → Bool
same_reason (some StopReason.answer_complete) StopReason.answer_complete = true
same_reason (some StopReason.premise_not_met) StopReason.premise_not_met = true
same_reason (some StopReason.evidence_partial) StopReason.evidence_partial = true
same_reason _ _ = false

-- The last three tests of `_valid_synthesis`, on the status and the reason.
unfoldable pub fits_outcome : EvidenceAssessment → FinalStatus → StopReason → Bool
fits_outcome a status reason =
    if a.complete
    then same_status status FinalStatus.completed
      && same_reason (some reason) StopReason.answer_complete
    else if a.premise_not_met
    then same_status status FinalStatus.completed
      && same_reason (some reason) StopReason.premise_not_met
    else same_status status FinalStatus.partial
      && same_reason (some reason) StopReason.evidence_partial
      && same_reason a.stop_reason StopReason.evidence_partial

unfoldable pub cites_all : List String → List String → Bool
unfolding subset
cites_all cited verified =
    subset cited verified && subset verified cited && (length cited == length verified)

unfoldable pub fits_assessment : FinalAnswer → EvidenceAssessment → Bool
fits_assessment answer a =
    same_texts answer.completed_dimensions a.resolved_hypotheses
    && same_texts answer.missing_dimensions a.gaps
    && fits_outcome a answer.status answer.stop_reason

-- `_valid_synthesis`
unfoldable pub valid_synthesis : AgentState → FinalAnswer → Bool
unfolding assessment
valid_synthesis s answer =
    if not (cites_all answer.evidence_ids (ids_of (verified_of s.evidence)))
    then false
    else elim (assessment s) [ none ↦ false | some a ↦ fits_assessment answer a ]
