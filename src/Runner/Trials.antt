-- ===== src/Runner/Trials.antt =====
-- Submissions to stores that work and to stores that fail, and the theorems there.
use governed_analytics_agent.Runner.Rollback.{
  if_missing, rollback_record, rollback_submission, prune_all, prune_answered, prune_locked,
}
use governed_analytics_agent.Runs.{
  require, get_run, create, expired_terminal_ids, expired_of, delete_queued,
}
use governed_analytics_agent.Events.Store.{
  append, emit, create_run, with_event, locked_buffer, high_water_mark, delete_run, may_delete,
}
use governed_analytics_agent.Common.Decimal.{decimal, digits_before}
use governed_analytics_agent.Events.Record.{run_event, event_id_of}
use governed_analytics_agent.Events.Identifiers.{
  is_sensitive, full_match, is_alphanumeric, is_digit, is_lower, is_upper, is_run_id_char,
  safe_run_id, matches_run_id,
}
use governed_analytics_agent.Events.Vocabulary.{event_type_of, event_nodes, member}
use governed_analytics_agent.Events.Values.{snapshot_mapping, distinct, expect_keys, enum, is_text}
use governed_analytics_agent.Runner.Ready.{submit_readies}
use governed_analytics_agent.Runner.Steps.{IsOpen}
use governed_analytics_agent.Runs.Record.{queued_record}
use governed_analytics_agent.Runner.Submission.{
  submit, prune_or_stop, after_create, keep_created, create_record, event_exists_before_submission,
  event_existed, begin_history, withdraw, undo, undo_at, launch, launch_unless_stopped, finish,
  submit_run,
}
use governed_analytics_agent.Runner.Launched.{IsCreated}
use governed_analytics_agent.Events.Freeze.{
  freeze_event_data, freeze_values, freeze_status, freeze_terminal, within,
}
use governed_analytics_agent.Common.Maybe.{◌>>=◌}
use governed_analytics_agent.Runs as runs
use governed_analytics_agent.Events.Store as events
use governed_analytics_agent.Common.{
  ℕ, ◌≡◌, refl, true, false, some, [], lookup, ◌==◌, if◌then◌else◌, ◌+◌,
}
use governed_analytics_agent.Runner.Coordination.{
  Task, await, raise_if_pending, coordination_failure, run_record_after_delete, delete_record,
  delete_owned_queued_run, event_generation_after_failure, event_high_water_after_failure,
  event_exists_after_failure, delete_events,
}
use governed_analytics_agent.Runner.Ports.{Turn, works, lost, ask_runs, ask_events}

program : Unit {0}
unfolding freeze_event_data freeze_values freeze_status freeze_terminal within ◌>>=◌
    snapshot_mapping distinct expect_keys enum is_text event_type_of event_nodes member is_sensitive
    full_match is_alphanumeric is_digit is_lower is_upper is_run_id_char safe_run_id matches_run_id
    run_event event_id_of decimal digits_before append emit create_run with_event locked_buffer
    high_water_mark events.is_foreign runs.is_foreign require get_run create expired_terminal_ids
    expired_of delete_queued delete_run may_delete ask_runs ask_events await raise_if_pending
    coordination_failure run_record_after_delete delete_record delete_owned_queued_run
    event_generation_after_failure event_high_water_after_failure event_exists_after_failure
    delete_events if_missing rollback_record rollback_submission prune_all prune_answered
    prune_locked prune_or_stop after_create keep_created create_record
    event_exists_before_submission event_existed begin_history withdraw undo undo_at launch
    launch_unless_stopped finish submit_run submit
program = tt

abbrev empty : (ℕ → Turn) → Task
empty turns = record {
  runner = record {
    run_store = record { max_runs = 4; retention_seconds = 60; records = []; owners = [] };
    event_store = [];
    turns = turns;
    calls = 0;
    accepting = true;
    consistency_failed = false;
    run_failures = [];
    ownership_tokens = [];
    tasks = [];
  };
  cancelling = false;
}

abbrev steady : ℕ → Turn
steady k = record { fault = works; now = 10 + k }

-- The emission of the run's first event fails.
abbrev no_event : ℕ → Turn
no_event k = record { fault = if k == 4 then lost else works; now = 10 + k }

submit_readies_example :
    IsCreated "run-1" 7
      (queued_record "run-1" "gmv in March" 11)
      (submit true "run-1" "gmv in March" 7 (empty steady)).1.runner.run_store
    × IsOpen "run-1"
        (some 7)
        2
        (submit true "run-1" "gmv in March" 7 (empty steady)).1.runner.event_store
    × (lookup "run-1"
          (submit true "run-1" "gmv in March" 7 (empty steady)).1.runner.ownership_tokens
        ≡ some 7)
unfolding program
submit_readies_example =
    submit_readies true "run-1" "gmv in March" 7 (empty steady)
      {found = queued_record "run-1" "gmv in March" 11} refl
