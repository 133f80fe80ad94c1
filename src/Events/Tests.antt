-- ===== src/Events/Tests.antt =====
-- Runs of the freezing and of the cursor on small data, and instances of their theorems.
use governed_analytics_agent.Common.{◌≡◌, refl, ok, err, none, some, [], ◌∷◌, arith, Dict}
use governed_analytics_agent.Common.Maybe.{◌>>=◌}
use governed_analytics_agent.Events.Cursor.{
  parse_last_event_id, parse-event_id, parse-event_id_ahead,
}
use governed_analytics_agent.Events.Freeze.{
  freeze_event_data, freeze_values, freeze_behavior, freeze_terminal, within, eqb,
}
use governed_analytics_agent.Events.Idempotent.{freeze_event_data_idem}
use governed_analytics_agent.Events.Identifiers.{
  safe_run_id, safe_identifier, matches_run_id, matches_identifier, is_sensitive, full_match,
  is_alphanumeric, is_digit, is_lower, is_upper, is_run_id_char, is_identifier_char,
}
use governed_analytics_agent.Events.Record.{event_id_of}
use governed_analytics_agent.Events.Store.{event_cursor_ahead}
use governed_analytics_agent.Events.Values.{
  Value, text, many, cons, nil, distinct, snapshot_mapping, expect_keys, enum, identifier_tuple,
  is_text, is_nonempty_tuple, tuple_within, items_within,
}
use governed_analytics_agent.Events.Vocabulary.{event_type_of, event_nodes, member}

program : Unit {0}
unfolding freeze_event_data freeze_values freeze_behavior freeze_terminal within eqb ◌>>=◌
    snapshot_mapping distinct expect_keys enum identifier_tuple is_text is_nonempty_tuple
    tuple_within items_within event_type_of event_nodes member safe_identifier matches_identifier
    is_sensitive full_match is_alphanumeric is_digit is_lower is_upper is_identifier_char
    is_run_id_char safe_run_id matches_run_id
program = tt

-- The keys in another order than the event keeps them in.
abbrev clarification : Dict Value
clarification =
    ("missing_fields", many (cons (text "metric") nil))
    ∷ ("reason_code", text "missing_metric")
    ∷ ("action", text "clarify")
    ∷ []

abbrev frozen : Dict Value
frozen =
    ("action", text "clarify")
    ∷ ("reason_code", text "missing_metric")
    ∷ ("missing_fields", many (cons (text "metric") nil))
    ∷ []

clarifies : freeze_event_data "decide_behavior" "behavior.decided" clarification ≡ some frozen
unfolding program
clarifies = refl

-- The reason of another action is refused.
mismatched :
    freeze_event_data "decide_behavior" "behavior.decided" (
      ("missing_fields", many nil) ∷ ("reason_code", text "ready") ∷ ("action", text "refuse") ∷ [])
    ≡ none
unfolding program
mismatched = refl

freeze_event_data_idem_example :
    freeze_event_data "decide_behavior" "behavior.decided" frozen ≡ some frozen
freeze_event_data_idem_example =
    freeze_event_data_idem "decide_behavior" "behavior.decided" clarification {f = frozen} clarifies

parse-event_id_example :
    parse_last_event_id "run-1" (some (event_id_of "run-1" 12)) 40 ≡ ok (some 12)
unfolding program
parse-event_id_example = parse-event_id "run-1" 12 40 refl (omega arith) (omega arith)

parse-event_id_ahead_example :
    parse_last_event_id "run-1" (some (event_id_of "run-1" 41)) 40 ≡ err event_cursor_ahead
unfolding program
parse-event_id_ahead_example = parse-event_id_ahead "run-1" 41 40 refl (omega arith) (omega arith)
