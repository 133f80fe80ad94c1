-- ===== src/Runs/Record.antt =====
-- `RunRecord`, its validator, and the projection of a result into it, of runtime/runs.py.
use governed_analytics_agent.Common.{
  ℕ, String, Bool, true, false, not, ◌&&◌, ◌||◌, Option, none, some, List, [], ltb, ◌==◌, is_none,
}
use governed_analytics_agent.Agent.Assessment.{verified_of}
use governed_analytics_agent.Contracts.Answer.{FinalAnswer}
use governed_analytics_agent.Contracts.Enums.{
  FinalStatus, StopReason, RunLifecycleStatus, queued, running, terminal, final_status_value,
  stop_reason_value,
}
use governed_analytics_agent.Contracts.Evidence.{EvidenceItem}
use governed_analytics_agent.Contracts.Governance.{GovernanceSnapshot, empty_snapshot}
use governed_analytics_agent.Contracts.Plan.{is_some}
use governed_analytics_agent.Contracts.Trace.{
  SafeTrace, empty_trace, same_list, same_texts, same_text, same_evidence, same_governance,
  same_trace,
}

pub record RunRecord : Type 0 where
  pub run_id : String
  pub query : String
  pub lifecycle_status : RunLifecycleStatus
  pub created_at : ℕ
  pub started_at : Option ℕ
  pub terminal_at : Option ℕ
  pub final_status : Option FinalStatus
  pub answer : Option String
  pub evidence : List EvidenceItem
  pub limitations : List String
  pub evidence_gaps : List String
  pub repair_count : ℕ
  pub governance : GovernanceSnapshot
  pub stop_reason : Option StopReason
  pub safe_trace : SafeTrace

abbrev pub is_queued : RunRecord → Bool
is_queued r = elim r.lifecycle_status [ queued ↦ true | _ ↦ false ]

abbrev pub is_running : RunRecord → Bool
is_running r = elim r.lifecycle_status [ running ↦ true | _ ↦ false ]

abbrev pub is_terminal : RunRecord → Bool
is_terminal r = elim r.lifecycle_status [ terminal ↦ true | _ ↦ false ]

abbrev before : Option ℕ → ℕ → Bool
before none t = false
before (some s) t = ltb s t

abbrev ends_early : Option ℕ → Option ℕ → Bool
ends_early none started = false
ends_early (some e) none = true
ends_early (some e) (some s) = ltb e s

-- `validate_lifecycle`: whether it returns.
unfoldable pub validate_lifecycle : RunRecord → Bool
validate_lifecycle r =
    let some_output = is_some r.final_status || is_some r.answer || is_some r.stop_reason in
    let all_output = is_some r.final_status && is_some r.answer && is_some r.stop_reason in
    let stage : Bool = elim r.lifecycle_status [
      | queued ↦ is_none r.started_at && is_none r.terminal_at && not some_output
      | running ↦ is_some r.started_at && is_none r.terminal_at && not some_output
      | terminal ↦ is_some r.started_at && is_some r.terminal_at && all_output
    ] in
    stage && not (before r.started_at r.created_at) && not (ends_early r.terminal_at r.started_at)

-- `RunRecord(run_id, query, QUEUED, now)`
abbrev pub queued_record : String → String → ℕ → RunRecord
queued_record run_id query now = record {
  run_id = run_id;
  query = query;
  lifecycle_status = queued;
  created_at = now;
  started_at = none;
  terminal_at = none;
  final_status = none;
  answer = none;
  evidence = [];
  limitations = [];
  evidence_gaps = [];
  repair_count = 0;
  governance = empty_snapshot;
  stop_reason = none;
  safe_trace = empty_trace;
}

-- What the store reads of an `AgentRunResult`.
pub record RunResult : Type 0 where
  pub run_id : String
  pub evidence : List EvidenceItem
  pub evidence_gaps : List String
  pub governance : GovernanceSnapshot
  pub final_answer : FinalAnswer
  pub safe_trace : SafeTrace

-- The update of `mark_running`.
unfoldable pub running_record : ℕ → RunRecord → RunRecord
running_record now r = record r { lifecycle_status = running; started_at = some now }

-- `_terminal_projection`, written over a record as the update of `complete` does
unfoldable pub with_result : RunResult → RunRecord → RunRecord
with_result result r = record r {
  final_status = some result.final_answer.status;
  answer = some result.final_answer.answer;
  evidence = verified_of result.evidence;
  limitations = result.final_answer.limitations;
  evidence_gaps = result.evidence_gaps;
  repair_count = result.governance.repair_count;
  governance = result.governance;
  stop_reason = some result.final_answer.stop_reason;
  safe_trace = result.safe_trace;
}

unfoldable pub terminal_record : ℕ → RunResult → RunRecord → RunRecord
unfolding with_result
terminal_record now result r = record (with_result result r) {
  lifecycle_status = terminal;
  terminal_at = some now;
}

-- Members of an enumeration are equal if their texts are.
abbrev status_text : Option FinalStatus → Option String
status_text none = none
status_text (some s) = some (final_status_value s)

abbrev reason_text : Option StopReason → Option String
reason_text none = none
reason_text (some r) = some (stop_reason_value r)

-- The fields that a projection sets, compared.
unfoldable pub same_output : RunRecord → RunRecord → Bool
same_output x y =
    same_text (status_text x.final_status) (status_text y.final_status)
    && same_text x.answer y.answer
    && same_list same_evidence x.evidence y.evidence
    && same_texts x.limitations y.limitations
    && same_texts x.evidence_gaps y.evidence_gaps
    && (x.repair_count == y.repair_count)
    && same_governance x.governance y.governance
    && same_text (reason_text x.stop_reason) (reason_text y.stop_reason)
    && same_trace x.safe_trace y.safe_trace

-- `_terminal_record_matches(record, _terminal_projection(result))`
unfoldable pub matches_result : RunRecord → RunResult → Bool
unfolding with_result same_output
matches_result r result = same_output r (with_result result r)
