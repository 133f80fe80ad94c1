-- ===== src/Runner/Tests.antt =====
-- Executions of a run whose stores work, fail now and then, or fail always, and the theorems there.
use governed_analytics_agent.Runner.Terminal.{
  same_data, is_expected_terminal_event, snapshot_matches, terminal_event_matches, emit_expected,
  round_from, round, last_look, rounds, ensure_event_terminal,
}
use governed_analytics_agent.Contracts.Answer.{is_allowed_reason}
use governed_analytics_agent.Agreement.{terminal_event_data}
use governed_analytics_agent.Runs.{require, get_run, mark_running, complete}
use governed_analytics_agent.Runs as runs
use governed_analytics_agent.Common.Decimal.{decimal, digits_before}
use governed_analytics_agent.Events.Record.{run_event, event_id_of}
use governed_analytics_agent.Events.Identifiers.{
  is_sensitive, full_match, is_alphanumeric, is_digit, is_lower, is_upper, is_run_id_char,
  safe_run_id, matches_run_id,
}
use governed_analytics_agent.Events.Vocabulary.{event_type_of, event_nodes, member}
use governed_analytics_agent.Events.Store.Append.{event_of}
use governed_analytics_agent.Events.Freeze.{
  freeze_event_data, freeze_values, freeze_status, freeze_terminal, within,
}
use governed_analytics_agent.Events.Store.{
  RunBuffer, append, emit, emit_terminal, with_event, locked_buffer, has_terminal, high_water_mark,
  replay_snapshot, is_foreign,
}
use governed_analytics_agent.Events.Store as events
use governed_analytics_agent.Common.Maybe.{◌>>=◌}
use governed_analytics_agent.Common.{
  ℕ, ◌≡◌, refl, String, true, false, none, some, [], ◌∷◌, err, ◌⊎◌, if◌then◌else◌, ◌==◌, ◌||◌, ◌+◌,
}
use governed_analytics_agent.Contracts.Enums.{FinalStatus, StopReason, cancelled}
use governed_analytics_agent.Contracts.Governance.{empty_snapshot}
use governed_analytics_agent.Contracts.Trace.{
  empty_trace, same_trace, same_governance, same_evidence, same_value,
}
use governed_analytics_agent.Events.Values.{
  text, snapshot_mapping, distinct, expect_keys, enum, is_text,
}
use governed_analytics_agent.Runner.Execution.{
  cancelled, Context, Executed, returned, valid, get, execute, deterministic_failure_result,
  failure_result, validated_result, result_of, run_agent, conclude, settle_run, enter_fail_stop,
}
use governed_analytics_agent.Runner.Outcome.{
  Concluded, ensure_running_lem, execute_concludes, execute_stops,
}
use governed_analytics_agent.Runner.Ports.{
  Turn, works, lost, unconfirmed, Runner, run_consistency, task_cancelled, ask_runs, ask_events,
}
use governed_analytics_agent.Runner.Records.{Holds}
use governed_analytics_agent.Runner.Reconcile.{
  ensure_running, read_run_for_reconciliation, reconciled, reconcile, ensure_run_terminal,
}
use governed_analytics_agent.Runs.Record.{
  RunResult, queued_record, is_running, running_record, terminal_record, with_result, same_output,
  matches_result,
}

program : Unit {0}
unfolding freeze_event_data freeze_values freeze_status freeze_terminal within ◌>>=◌
    snapshot_mapping distinct expect_keys enum is_text event_type_of event_nodes member is_sensitive
    full_match is_alphanumeric is_digit is_lower is_upper is_run_id_char safe_run_id matches_run_id
    run_event event_id_of decimal digits_before append emit emit_terminal with_event locked_buffer
    has_terminal high_water_mark replay_snapshot events.is_foreign runs.is_foreign require get_run
    mark_running complete running_record terminal_record with_result same_output matches_result
    same_trace same_governance same_evidence terminal_event_data is_allowed_reason ask_runs
    ask_events read_run_for_reconciliation reconciled reconcile ensure_running ensure_run_terminal
    same_data is_expected_terminal_event snapshot_matches terminal_event_matches emit_expected
    round_from round last_look rounds ensure_event_terminal deterministic_failure_result
    failure_result validated_result result_of run_agent conclude settle_run enter_fail_stop execute
    get same_value
program = tt

abbrev result : RunResult
result = record {
  run_id = "run-1";
  evidence = [];
  evidence_gaps = [];
  governance = empty_snapshot;
  final_answer = record {
    status = FinalStatus.completed;
    stop_reason = StopReason.answer_complete;
    answer = "gmv fell";
    evidence_ids = [];
    completed_dimensions = [];
    missing_dimensions = [];
    limitations = [];
    result_summary = none;
  };
  safe_trace = empty_trace;
}

abbrev context : Context
context = record { governance = some empty_snapshot; safe_trace = none }

abbrev ended : Executed
ended = returned (valid result)

abbrev buffer : RunBuffer
buffer = record {
  events = event_of 1 "run-1" 1 "runtime" "run.created" (("status", text "queued") ∷ []) ∷ [];
  terminal = false;
  started = false;
  active_streams = 0;
  deleted = false;
  owner_token = some 7;
}

-- The run waits for its execution, and its history has its creation.
abbrev before : (ℕ → Turn) → Runner
before turns = record {
  run_store = record {
    max_runs = 4;
    retention_seconds = 60;
    records = ("run-1", queued_record "run-1" "gmv in March" 1) ∷ [];
    owners = ("run-1", some 7) ∷ [];
  };
  event_store = ("run-1", buffer) ∷ [];
  turns = turns;
  calls = 0;
  accepting = true;
  consistency_failed = false;
  run_failures = [];
  ownership_tokens = ("run-1", 7) ∷ [];
  tasks = "run-1" ∷ [];
}

abbrev steady : ℕ → Turn
steady k = record { fault = works; now = 10 }

-- The first call and the emission of the end have their effect and raise; the first `complete` is lost.
abbrev shaky : ℕ → Turn
shaky k = record {
  fault = if k == 3 then lost else if k == 0 || k == 7 then unconfirmed else works;
  now = 10 + k;
}

abbrev broken : ℕ → Turn
broken k = record { fault = lost; now = 10 }

execute_concludes_example :
    Concluded "run-1" (execute "run-1" (some 7) (some context) ended (before shaky)).1
unfolding program
execute_concludes_example =
    execute_concludes "run-1" (some 7) (some context) ended (before shaky) refl

ensure_running_lem_example :
    Holds "run-1" (is_running) (ensure_running "run-1" (some 7) (before shaky)).1
unfolding program
ensure_running_lem_example = ensure_running_lem "run-1" (some 7) (before shaky) refl

-- A store that never answers stops the runner.
execute_stops_example :
    (run_consistency ≡ task_cancelled)
    ⊎ ((run_consistency ≡ run_consistency)
        × ((execute "run-1" (some 7) (some context) ended (before broken)).1.accepting ≡ false)
        × ((other : String)
            → (get other (execute "run-1" (some 7) (some context) ended (before broken)).1).0
              ≡ err run_consistency))
unfolding program
execute_stops_example =
    execute_stops "run-1" (some 7) (some context) ended (before broken) {e = run_consistency} refl
