-- ===== src/Events/Store/Tests.antt =====
-- One run of the store: created, started, ended and deleted; and instances of the theorems.
use governed_analytics_agent.Common.{
  ◌≡◌, ◌≢◌, refl, true, false, ok, err, none, some, [], ◌∷◌, arith, Dict, lookup, insert,
}
use governed_analytics_agent.Common.Decimal.{decimal, digits_before}
use governed_analytics_agent.Common.Maybe.{◌>>=◌}
use governed_analytics_agent.Events.Freeze.{
  freeze_event_data, freeze_values, freeze_status, freeze_terminal, within,
}
use governed_analytics_agent.Events.Identifiers.{
  safe_run_id, matches_run_id, is_sensitive, full_match, is_alphanumeric, is_digit, is_lower,
  is_upper, is_run_id_char,
}
use governed_analytics_agent.Events.Record.{RunEvent, run_event, event_id_of}
use governed_analytics_agent.Events.Store.{
  RunBuffer, EventStore, create_run, append, emit, emit_terminal, delete_run, open_stream,
  with_event, locked_buffer, is_foreign, may_delete, terminal_event_exists,
}
use governed_analytics_agent.Events.Store.Append.{append_lem, terminal_is_final, event_of}
use governed_analytics_agent.Events.Store.Steps.{
  create, emits, apply, start, next, IsSoundStore, Extends, reachable-IsSoundStore, history_grows,
}
use governed_analytics_agent.Events.Values.{
  Value, text, distinct, snapshot_mapping, expect_keys, enum, is_text,
}
use governed_analytics_agent.Events.Vocabulary.{event_type_of, event_nodes, member}

program : Unit {0}
unfolding freeze_event_data freeze_values freeze_status freeze_terminal within ◌>>=◌
    snapshot_mapping distinct expect_keys enum is_text event_type_of event_nodes member is_sensitive
    full_match is_alphanumeric is_digit is_lower is_upper is_run_id_char safe_run_id matches_run_id
    run_event event_id_of decimal digits_before create_run append emit emit_terminal delete_run
    open_stream with_event locked_buffer is_foreign may_delete apply
program = tt

abbrev queued_data : Dict Value
queued_data = ("status", text "queued") ∷ []

abbrev ending_data : Dict Value
ending_data = ("final_status", text "completed") ∷ ("stop_reason", text "answer_complete") ∷ []

abbrev created : EventStore
created = (create_run "run-1" (some 7) []).1

abbrev begun : EventStore
begun = (emit 1 "run-1" "runtime" "run.created" queued_data (some 7) created).1

abbrev ended : EventStore
ended = (emit_terminal 2 "run-1" ending_data (some 7) begun).1

abbrev first : RunEvent
first = event_of 1 "run-1" 1 "runtime" "run.created" queued_data

abbrev last : RunEvent
last = event_of 2 "run-1" 2 "runtime" "run.terminal" ending_data

abbrev fresh : RunBuffer
fresh = record {
  events = [];
  terminal = false;
  started = false;
  active_streams = 0;
  deleted = false;
  owner_token = some 7;
}

abbrev closed : RunBuffer
closed = record fresh { events = first ∷ last ∷ []; terminal = true }

runs_to_the_end : ended ≡ ("run-1", closed) ∷ []
unfolding program
runs_to_the_end = refl

-- A second terminal event is refused, and a run with an open stream is not deleted.
refuses :
    ((emit_terminal 3 "run-1" ending_data (some 7) ended).0 ≡ err terminal_event_exists)
    × ((delete_run "run-1" false (some 7) (open_stream "run-1" none ended).1).0 ≡ ok false)
    × (delete_run "run-1" false (some 7) ended ≡ (ok true, []))
unfolding program
refuses = (refl, refl, refl)

append_lem_example :
    append 1 "run-1" "runtime" "run.created" queued_data false (some 7) created
    ≡ (ok first, insert "run-1" (with_event fresh first false) created)
unfolding program
append_lem_example =
    append_lem 1 "run-1" "runtime" "run.created" queued_data false (some 7) created {b = fresh}
      {f = queued_data} refl refl refl refl refl refl (omega arith)

terminal_is_final_example :
    ((e : RunEvent) → (emit 3 "run-1" "runtime" "run.created" queued_data none ended).0 ≢ ok e)
    × ((emit 3 "run-1" "runtime" "run.created" queued_data none ended).1 ≡ ended)
    × ((e : RunEvent) → (emit_terminal 3 "run-1" queued_data none ended).0 ≢ ok e)
    × ((emit_terminal 3 "run-1" queued_data none ended).1 ≡ ended)
unfolding program
terminal_is_final_example =
    terminal_is_final 3 "run-1" "runtime" "run.created" queued_data none ended {b = closed} refl
      refl

reachable-IsSoundStore_example : IsSoundStore (
    apply
      (emits 1 "run-1" "runtime" "run.created" queued_data (some 7))
      (apply (create "run-1" (some 7)) []))
reachable-IsSoundStore_example = reachable-IsSoundStore (
    next (next start (create "run-1" (some 7)))
      (emits 1 "run-1" "runtime" "run.created" queued_data (some 7)))

begun-IsSoundStore : IsSoundStore (apply (create "run-1" (some 7)) [])
begun-IsSoundStore = reachable-IsSoundStore (next start (create "run-1" (some 7)))

history_grows_example :
    Extends fresh (
      lookup "run-1" (apply (emits 1 "run-1" "runtime" "run.created" queued_data (some 7)) created))
unfolding program
history_grows_example =
    history_grows (emits 1 "run-1" "runtime" "run.created" queued_data (some 7)) created "run-1"
      {b = fresh} begun-IsSoundStore refl
