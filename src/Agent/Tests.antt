-- ===== src/Agent/Tests.antt =====
-- Assessments, answers and routes of small states, and instances of the theorems.
use governed_analytics_agent.Common.{◌≡◌, refl, String, true, false, none, some, List, [], ◌∷◌}
use governed_analytics_agent.Agent.Assessment.{
  assess_evidence, attribution_completion, plan_completion, repair_decision, blocked_reason,
  is_repairable,
}
use governed_analytics_agent.Agent.Assessment.Laws.{assess_evidence_validates}
use governed_analytics_agent.Agent.Routing.{
  validate_observation, judge_evidence, repair, finalize, route, walk, route_after_validation,
  route_after_evidence, route_after_repair,
}
use governed_analytics_agent.Agent.Routing.Laws.{stopped_finalizes}
use governed_analytics_agent.Agent.Sorting.{set_of, insert_sorted, sorted}
use governed_analytics_agent.Agent.State.{AgentState, new_agent_state}
use governed_analytics_agent.Agent.Synthesis.{
  valid_synthesis, fits_assessment, fits_outcome, cites_all, assessment, deterministic_answer,
  ordinary_answer, status_for_reason, stop_class,
}
use governed_analytics_agent.Agent.Synthesis.Agrees.{valid_synthesis_agrees}
use governed_analytics_agent.Agent.Synthesis.Valid.{IsAnswerable, deterministic_answer_validates}
use governed_analytics_agent.Contracts.Answer.{
  FinalAnswer, validate_terminal_state, is_allowed_reason,
}
use governed_analytics_agent.Contracts.Enums.{AnalysisType, FinalStatus, StopReason}
use governed_analytics_agent.Contracts.Evidence.{
  EvidenceItem, Stance, supports, refutes, ObservationValidation, RepairRecord, result_contract,
  success, validate_assessment,
}
use governed_analytics_agent.Contracts.Json.{NumericValue}
use governed_analytics_agent.Contracts.Plan.{subset, TypedMetricPlan}
use governed_analytics_agent.Contracts.Observation.{Observation}
use governed_analytics_agent.Contracts.Enums.{ActionType}
use governed_analytics_agent.Events.Values.{distinct}
use governed_analytics_agent.Events.Vocabulary.{member}

program : Unit {0}
unfolding assess_evidence attribution_completion plan_completion repair_decision blocked_reason
    is_repairable route walk route_after_validation route_after_evidence route_after_repair set_of
    insert_sorted sorted assessment deterministic_answer ordinary_answer status_for_reason
    stop_class valid_synthesis fits_assessment fits_outcome cites_all subset validate_terminal_state
    is_allowed_reason validate_assessment distinct member
program = tt

abbrev item : String → Stance → EvidenceItem
item hypothesis stance = record {
  evidence_id = hypothesis;
  observation_id = "o1";
  hypothesis_id = hypothesis;
  contract_id = "c1";
  query_id = "q1";
  claim_key = "gmv";
  dimensions = [];
  stance = stance;
  numeric_value = some (record { negative = false; digits = 125; places = 1 });
  unit_name = some "CNY";
  verified = true;
  limitations = [];
}

abbrev attribution : TypedMetricPlan
attribution = record {
  plan_id = "p1";
  revision = 1;
  metric_id = "gmv";
  metric_version = "v1";
  analysis_type = AnalysisType.attribution;
  windows = [];
  grain = [];
  dimensions = "region" ∷ [];
  filters = [];
  numerator = none;
  denominator = none;
  null_policy = "skip";
  zero_denominator_policy = "null";
  fill_policy = "none";
  sort_keys = [];
  top_k = none;
  tie_break = [];
  hypotheses = [];
}

abbrev found : List EvidenceItem
found = item "region_contribution" supports ∷ item "confirm_decline" supports ∷ []

abbrev assessed_gaps : List String
assessed_gaps = (assess_evidence attribution found).gaps

finds_gaps : assessed_gaps ≡ "segment_contribution" ∷ "sku_contribution" ∷ []
unfolding program
finds_gaps = refl

-- A comparison that refutes the decline ends the analysis.
refutes_premise :
    (assess_evidence attribution (item "confirm_decline" refutes ∷ [])).stop_reason
    ≡ some StopReason.premise_not_met
unfolding program
refutes_premise = refl

assess_evidence_validates_example : validate_assessment (assess_evidence attribution found) ≡ true
assess_evidence_validates_example = assess_evidence_validates attribution found

abbrev late : AgentState
late = record (new_agent_state "run-1" "why did gmv fall") {
  plan_revisions = attribution ∷ [];
  evidence = found;
  evidence_gaps = "segment_contribution" ∷ [];
  stop_reason = some StopReason.sql_timeout;
}

abbrev number_text : NumericValue → String
number_text n = "12.5"

late-IsAnswerable : IsAnswerable late
unfolding program
late-IsAnswerable = record { ids_once = refl; gaps_once = refl; refuting = refl; grounded = refl }

answers_late : (deterministic_answer number_text late).status ≡ FinalStatus.partial
unfolding program
answers_late = refl

deterministic_answer_validates_example :
    validate_terminal_state (deterministic_answer number_text late) ≡ true
deterministic_answer_validates_example =
    deterministic_answer_validates number_text late late-IsAnswerable

stopped_finalizes_example : route judge_evidence late ≡ finalize
stopped_finalizes_example = stopped_finalizes judge_evidence late refl refl

abbrev rejected : ObservationValidation
rejected = record {
  observation_id = "o1";
  contract_id = "c1";
  validation_fingerprint = "f";
  valid = false;
  error_code = some "row_count_mismatch";
  repairable = true;
}

abbrev repaired_record : RepairRecord
repaired_record = record {
  repair_id = "r1";
  kind = result_contract;
  target = "c1";
  error_code = "row_count_mismatch";
  outcome = success;
  repair_action_type = some ActionType.execute_sql;
  repair_purpose = some "retry";
  original_observation_id = some "o1";
  repaired_observation_id = some "o2";
}

abbrev observed : Observation
observed = record {
  observation_id = "o1";
  tool_name = ActionType.execute_sql;
  purpose = "measure";
  succeeded = false;
  safe_error = some "database_error";
  hypothesis_id = none;
  contract_id = none;
  query_id = none;
  columns = [];
  row_count = none;
  possibly_truncated = false;
  payload = none;
}

abbrev unrepaired : AgentState
unrepaired = record (new_agent_state "run-1" "gmv") {
  observations = observed ∷ [];
  observation_validations = rejected ∷ [];
}

abbrev repaired : AgentState
repaired = record unrepaired { repair_history = repaired_record ∷ [] }

abbrev visited : List AgentState
visited = unrepaired ∷ repaired ∷ repaired ∷ []

-- The same rejection leads to the repair first, and then to the end.
walks :
    walk validate_observation visited ≡ validate_observation ∷ repair ∷ validate_observation ∷ []
unfolding program
walks = refl

-- An answer to the partial evidence that cites it all.
abbrev synthesized : FinalAnswer
synthesized = record {
  status = FinalStatus.partial;
  stop_reason = StopReason.evidence_partial;
  answer = "gmv fell in one region";
  evidence_ids = "confirm_decline" ∷ "region_contribution" ∷ [];
  completed_dimensions = "confirm_decline" ∷ "region_contribution" ∷ [];
  missing_dimensions = "segment_contribution" ∷ "sku_contribution" ∷ [];
  limitations = [];
  result_summary = none;
}

abbrev concluded : AgentState
concluded = record late { stop_reason = none }

valid_synthesis_agrees_example :
    (FinalStatus.partial ≡ (deterministic_answer number_text concluded).status)
    × (StopReason.evidence_partial ≡ (deterministic_answer number_text concluded).stop_reason)
unfolding program
valid_synthesis_agrees_example = valid_synthesis_agrees number_text concluded synthesized refl refl
