-- ===== src/Contracts/Evidence.antt =====
-- The evidence and repair records of agent/contracts.py, and whether their validators accept them.
use governed_analytics_agent.Common.{
  ℕ, ◌+◌, String, Bool, true, false, not, ◌&&◌, ◌||◌, Option, some, List, map, ltb, is_none,
}
use governed_analytics_agent.Contracts.Answer.{is_empty}
use governed_analytics_agent.Contracts.Enums.{ActionType, StopReason}
use governed_analytics_agent.Contracts.Json.{NumericValue}
use governed_analytics_agent.Events.Values.{distinct}

pub data Stance : Type 0 where
  supports refutes : Stance

pub record EvidenceItem : Type 0 where
  pub evidence_id : String
  pub observation_id : String
  pub hypothesis_id : String
  pub contract_id : String
  pub query_id : String
  pub claim_key : String
  pub dimensions : List (String × String)
  pub stance : Stance
  pub numeric_value : Option NumericValue
  pub unit_name : Option String
  pub verified : Bool
  pub limitations : List String

abbrev pub same_flag : Bool → Bool → Bool
same_flag true b = b
same_flag false b = not b

-- `_validate_evidence`
unfoldable pub validate_evidence : EvidenceItem → Bool
validate_evidence e =
    distinct (map (λ d. d.0) e.dimensions)
    && same_flag (is_none e.numeric_value) (is_none e.unit_name)
    && distinct e.limitations

pub record EvidenceAssessment : Type 0 where
  pub complete : Bool
  pub partial : Bool
  pub premise_not_met : Bool
  pub verified_count : ℕ
  pub resolved_hypotheses : List String
  pub gaps : List String
  pub stop_reason : Option StopReason

abbrev bit : Bool → ℕ
bit true = 1
bit false = 0

abbrev is_answer_complete : Option StopReason → Bool
is_answer_complete (some StopReason.answer_complete) = true
is_answer_complete _ = false

abbrev is_evidence_partial : Option StopReason → Bool
is_evidence_partial (some StopReason.evidence_partial) = true
is_evidence_partial _ = false

abbrev is_premise_not_met : Option StopReason → Bool
is_premise_not_met (some StopReason.premise_not_met) = true
is_premise_not_met _ = false

-- `_validate_assessment`
unfoldable pub validate_assessment : EvidenceAssessment → Bool
validate_assessment a =
    not (ltb 1 (bit a.complete + bit a.partial + bit a.premise_not_met))
    && distinct a.resolved_hypotheses
    && distinct a.gaps
    && not (a.complete && (not (is_empty a.gaps) || not (is_answer_complete a.stop_reason)))
    && not (a.partial && not (is_evidence_partial a.stop_reason))
    && not (a.premise_not_met && not (is_premise_not_met a.stop_reason))

pub record ObservationValidation : Type 0 where
  pub observation_id : String
  pub contract_id : String
  pub validation_fingerprint : String
  pub valid : Bool
  pub error_code : Option String
  pub repairable : Bool

-- `_validate_result`
unfoldable pub validate_result : ObservationValidation → Bool
validate_result v =
    not (v.valid && (not (is_none v.error_code) || v.repairable))
    && not (not v.valid && is_none v.error_code)

pub record RepairDecision : Type 0 where
  pub allowed : Bool
  pub error_code : Option String
  pub stop_reason : Option StopReason

-- `_validate_decision` of a repair decision
unfoldable pub validate_repair_decision : RepairDecision → Bool
validate_repair_decision d =
    not (d.allowed && not (is_none d.stop_reason)) && not (not d.allowed && is_none d.stop_reason)

pub data RepairKind : Type 0 where
  structured_output result_contract : RepairKind

pub data RepairOutcome : Type 0 where
  success failed blocked : RepairOutcome

pub record RepairRecord : Type 0 where
  pub repair_id : String
  pub kind : RepairKind
  pub target : String
  pub error_code : String
  pub outcome : RepairOutcome
  pub repair_action_type : Option ActionType
  pub repair_purpose : Option String
  pub original_observation_id : Option String
  pub repaired_observation_id : Option String

abbrev is_analysis_action : Option ActionType → Bool
is_analysis_action (some ActionType.profile) = true
is_analysis_action (some ActionType.execute_sql) = true
is_analysis_action _ = false

abbrev is_success : RepairOutcome → Bool
is_success success = true
is_success _ = false

abbrev validate_kind : RepairKind → RepairRecord → Bool
validate_kind structured_output r =
    is_none r.repair_action_type
    && is_none r.original_observation_id
    && is_none r.repaired_observation_id
validate_kind result_contract r =
    not (is_none r.original_observation_id)
    && not (is_none r.repair_action_type)
    && is_analysis_action r.repair_action_type
    && same_flag (is_success r.outcome) (not (is_none r.repaired_observation_id))

-- `_validate_record`
unfoldable pub validate_record : RepairRecord → Bool
validate_record r =
    same_flag (is_none r.repair_action_type) (is_none r.repair_purpose) && validate_kind r.kind r
