-- ===== src/Agent/State.antt =====
-- `AgentState` of agent/state.py. The metric and schema contexts, which no definition here reads, and
-- the normalized query are left out.
use governed_analytics_agent.Common.{String, Bool, false, Option, none, List, [], ◌∷◌, some}
use governed_analytics_agent.Contracts.Answer.{BehaviorDecision, FinalAnswer}
use governed_analytics_agent.Contracts.Enums.{RunLifecycleStatus, StopReason, queued}
use governed_analytics_agent.Contracts.Evidence.{EvidenceItem, ObservationValidation, RepairRecord}
use governed_analytics_agent.Contracts.Governance.{GovernanceSnapshot, empty_snapshot}
use governed_analytics_agent.Contracts.Plan.{TypedMetricPlan}
use governed_analytics_agent.Contracts.Observation.{AnswerContract, AgentAction, Observation}
use governed_analytics_agent.Contracts.Trace.{NodeTrace, ModelCallTrace, ToolCallTrace}

pub record AgentState : Type 0 where
  pub run_id : String
  pub query : String
  pub lifecycle_status : RunLifecycleStatus
  pub behavior : Option BehaviorDecision
  pub plan_revisions : List TypedMetricPlan
  pub answer_contract : Option AnswerContract
  pub next_action : Option AgentAction
  pub action_loop_pending : Bool
  pub observations : List Observation
  pub observation_validations : List ObservationValidation
  pub evidence : List EvidenceItem
  pub evidence_gaps : List String
  pub first_candidate : Option Observation
  pub repair_history : List RepairRecord
  pub governance : GovernanceSnapshot
  pub node_traces : List NodeTrace
  pub model_call_traces : List ModelCallTrace
  pub tool_call_traces : List ToolCallTrace
  pub final_answer : Option FinalAnswer
  pub stop_reason : Option StopReason

-- `new_agent_state`
abbrev pub new_agent_state : String → String → AgentState
new_agent_state run_id query = record {
  run_id = run_id;
  query = query;
  lifecycle_status = queued;
  behavior = none;
  plan_revisions = [];
  answer_contract = none;
  next_action = none;
  action_loop_pending = false;
  observations = [];
  observation_validations = [];
  evidence = [];
  evidence_gaps = [];
  first_candidate = none;
  repair_history = [];
  governance = empty_snapshot;
  node_traces = [];
  model_call_traces = [];
  tool_call_traces = [];
  final_answer = none;
  stop_reason = none;
}

-- `items[-1]`, if there is one
abbrev pub last_of {ℓ} : {A : Type ℓ} → List A → Option A
last_of [] = none
last_of (x ∷ []) = some x
last_of (x ∷ y ∷ xs) = last_of (y ∷ xs)
