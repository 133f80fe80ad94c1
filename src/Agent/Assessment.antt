-- ===== src/Agent/Assessment.antt =====
-- `assess_evidence`, `_attribution_completion`, `_blocked_reason` and `repair_decision` of
-- agent/validation.py. A set of texts is the list of its members.
pub mod Laws
use governed_analytics_agent.Common.{
  ℕ, String, Bool, true, false, not, ◌&&◌, ◌||◌, Option, none, some, List, [], ◌∷◌, map, length,
  ◌==◌, if◌then◌else◌, all_of, str_eq, Dict, lookup,
}
use governed_analytics_agent.Agent.Sorting.{set_of, sorted}
use governed_analytics_agent.Contracts.Answer.{is_empty}
use governed_analytics_agent.Contracts.Enums.{StopReason}
use governed_analytics_agent.Contracts.Evidence.{
  EvidenceItem, EvidenceAssessment, ObservationValidation, RepairDecision, RepairRecord, Stance,
  supports, refutes,
}
use governed_analytics_agent.Contracts.Governance.{GovernanceSnapshot}
use governed_analytics_agent.Contracts.Plan.{TypedMetricPlan, hypothesis_ids, is_attribution}
use governed_analytics_agent.Events.Vocabulary.{member}

-- `[x for x in xs if test(x)]`
abbrev pub keep {ℓ} : {A : Type ℓ} → (A → Bool) → List A → List A
keep test [] = []
keep test (x ∷ xs) = if test x then x ∷ keep test xs else keep test xs

abbrev pub is_support : Stance → Bool
is_support supports = true
is_support refutes = false

-- `_ATTRIBUTION_DIMENSIONS`
abbrev pub attribution_dimensions : List String
attribution_dimensions = "region_contribution" ∷ "sku_contribution" ∷ "segment_contribution" ∷ []

abbrev pub verified_of : List EvidenceItem → List EvidenceItem
verified_of = keep (λ item. item.verified)

abbrev pub hypotheses_of : List EvidenceItem → List String
hypotheses_of = map (λ item. item.hypothesis_id)

pub record Completion : Type 0 where
  pub complete : Bool
  pub partial : Bool
  pub gaps : List String

-- `_attribution_completion`
unfoldable pub attribution_completion : List EvidenceItem → Completion
unfolding sorted member
attribution_completion evidence =
    let supported =
      hypotheses_of (keep (λ item. item.verified && is_support item.stance) evidence) in
    let completed = keep (λ d. member d supported) attribution_dimensions in
    let missing = keep (λ d. not (member d supported)) attribution_dimensions in
    let unconfirmed : Completion = record {
      complete = false;
      partial = false;
      gaps = "confirm_decline" ∷ [];
    } in
    let all : Completion = record { complete = true; partial = false; gaps = [] } in
    let some_of : Completion = record { complete = false; partial = true; gaps = sorted missing } in
    let none_of : Completion = record {
      complete = false;
      partial = false;
      gaps = sorted attribution_dimensions;
    } in
    if not (member "confirm_decline" supported)
    then unconfirmed
    else if length completed == 3
    then all
    else if is_empty completed
    then none_of
    else some_of

-- The branch of the other analyses.
unfoldable pub plan_completion : List String → List String → Completion
unfolding set_of sorted member
plan_completion hypotheses resolved =
    let required = set_of hypotheses in
    let completed = keep (λ h. member h resolved) required in
    let missing = keep (λ h. not (member h resolved)) required in
    record {
      complete = is_empty missing;
      partial = not (is_empty completed) && not (is_empty missing);
      gaps = sorted missing;
    }

abbrev pub is_refuted : List EvidenceItem → Bool
is_refuted [] = false
is_refuted (e ∷ es) = all_of (λ (item : EvidenceItem). not (is_support item.stance)) (e ∷ es)

abbrev pub completion_reason : Completion → Option StopReason
completion_reason c =
    if c.complete
    then some StopReason.answer_complete
    else if c.partial
    then some StopReason.evidence_partial
    else none

-- The record that the last `return` builds.
abbrev pub assessment_of : Completion → ℕ → List String → EvidenceAssessment
assessment_of c count resolved = record {
  complete = c.complete;
  partial = c.partial;
  premise_not_met = false;
  verified_count = count;
  resolved_hypotheses = resolved;
  gaps = c.gaps;
  stop_reason = completion_reason c;
}

abbrev pub premise_failed : ℕ → List String → EvidenceAssessment
premise_failed count resolved = record {
  complete = false;
  partial = false;
  premise_not_met = true;
  verified_count = count;
  resolved_hypotheses = resolved;
  gaps = [];
  stop_reason = some StopReason.premise_not_met;
}

unfoldable pub assess_evidence : TypedMetricPlan → List EvidenceItem → EvidenceAssessment
unfolding set_of sorted attribution_completion plan_completion
assess_evidence plan evidence =
    let verified = verified_of evidence in
    let count = length verified in
    let resolved = sorted (set_of (hypotheses_of verified)) in
    let comparison = keep (λ item. str_eq item.hypothesis_id "confirm_decline") verified in
    if is_attribution plan.analysis_type
    then (if is_refuted comparison
        then premise_failed count resolved
        else assessment_of (attribution_completion verified) count resolved)
    else assessment_of (plan_completion (hypothesis_ids plan) resolved) count resolved

abbrev pub blocked_reasons : Dict StopReason
blocked_reasons =
    ("database_error", StopReason.database_error)
    ∷ ("policy_blocked", StopReason.sql_policy_rejected)
    ∷ ("result_truncated", StopReason.result_truncated)
    ∷ ("sensitive_result_blocked", StopReason.sensitive_result_blocked)
    ∷ ("sql_timeout", StopReason.sql_timeout)
    ∷ ("unknown_tool_error", StopReason.internal_error)
    ∷ []

abbrev or_else : Option StopReason → StopReason → StopReason
or_else (some r) d = r
or_else none d = d

-- `_blocked_reason`
unfoldable pub blocked_reason : Option String → StopReason
blocked_reason none = StopReason.answer_contract_unmet
blocked_reason (some code) = or_else (lookup code blocked_reasons) StopReason.answer_contract_unmet

-- `_REPAIRABLE_ERRORS`
abbrev pub repairable_errors : List String
repairable_errors =
    "column_contract_mismatch" ∷ "key_not_unique" ∷ "limit_exceeded" ∷ "nullable_contract_mismatch"
    ∷ "order_contract_mismatch" ∷ "row_count_mismatch" ∷ "row_shape_mismatch"
    ∷ "type_contract_mismatch" ∷ "zero_denominator_contract_mismatch" ∷ []

unfoldable pub is_repairable : Option String → Bool
unfolding member
is_repairable none = false
is_repairable (some code) = member code repairable_errors

abbrev pub is_first : List RepairRecord → Bool
is_first [] = true
is_first (r ∷ rs) = false

unfoldable pub repair_decision :
    ObservationValidation → List RepairRecord → GovernanceSnapshot → RepairDecision
repair_decision v history governance =
    let granted : RepairDecision = record {
      allowed = true;
      error_code = v.error_code;
      stop_reason = none;
    } in
    let refused : StopReason → RepairDecision =
      λ r. record { allowed = false; error_code = v.error_code; stop_reason = some r } in
    if v.repairable
      && is_repairable v.error_code
      && (governance.repair_count == 0)
      && is_first history
    then granted
    else if v.repairable && is_repairable v.error_code
    then refused StopReason.repair_failed
    else refused (blocked_reason v.error_code)
