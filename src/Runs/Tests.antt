-- ===== src/Runs/Tests.antt =====
-- One run of the run store, and instances of the theorems.
use governed_analytics_agent.Common.{◌≡◌, refl, false, none, some, [], ◌∷◌, ok, err}
use governed_analytics_agent.Contracts.Answer.{FinalAnswer}
use governed_analytics_agent.Contracts.Enums.{FinalStatus, StopReason}
use governed_analytics_agent.Contracts.Governance.{empty_snapshot}
use governed_analytics_agent.Contracts.Trace.{
  empty_trace, same_trace, same_governance, same_evidence,
}
use governed_analytics_agent.Events.Identifiers.{
  matches_run_id, full_match, is_alphanumeric, is_digit, is_lower, is_upper, is_run_id_char,
}
use governed_analytics_agent.Events.Vocabulary.{member}
use governed_analytics_agent.Runs.{
  RunStore, new_store, is_foreign, require, create, mark_running, complete, delete_queued,
  expired_of, is_expired, run_capacity_exceeded,
}
use governed_analytics_agent.Runs.Record.{
  RunRecord, RunResult, queued_record, running_record, terminal_record, with_result, same_output,
  matches_result,
}
use governed_analytics_agent.Runs.Trace.{apply, complete_again}

program : Unit {0}
unfolding matches_run_id full_match is_alphanumeric is_digit is_lower is_upper is_run_id_char member
    is_foreign require create mark_running complete delete_queued expired_of is_expired
    running_record terminal_record with_result same_output matches_result apply same_trace
    same_governance same_evidence
program = tt

abbrev answer : FinalAnswer
answer = record {
  status = FinalStatus.completed;
  stop_reason = StopReason.answer_complete;
  answer = "gmv fell";
  evidence_ids = [];
  completed_dimensions = [];
  missing_dimensions = [];
  limitations = [];
  result_summary = none;
}

abbrev result : RunResult
result = record {
  run_id = "run-1";
  evidence = [];
  evidence_gaps = [];
  governance = empty_snapshot;
  final_answer = answer;
  safe_trace = empty_trace;
}

abbrev empty : RunStore
empty = new_store 1 60

abbrev created : RunStore
created = (create 10 "run-1" "gmv" (some 7) empty).1

abbrev marked : RunStore
marked = (mark_running 20 "run-1" (some 7) created).1

abbrev done : RunStore
done = (complete 30 "run-1" result (some 7) marked).1

abbrev ended : RunRecord
ended = terminal_record 30 result (running_record 20 (queued_record "run-1" "gmv" 10))

-- The one place is taken, and a run that was marked is no longer deleted as queued.
refuses :
    ((create 11 "run-2" "gmv" none created).0 ≡ err run_capacity_exceeded)
    × ((delete_queued "run-1" (some 7) marked).0 ≡ ok false)
    × (done.records ≡ ("run-1", ended) ∷ [])
unfolding program
refuses = (refl, refl, refl)

complete_again_example : complete 45 "run-1" result (some 7) done ≡ (ok ended, done)
unfolding program
complete_again_example =
    complete_again 30 45 "run-1" result (some 7) marked done ended refl refl refl
