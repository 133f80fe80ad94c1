-- ===== src/Runner/Terminal.antt =====
-- `_ensure_event_terminal`, `_terminal_event_matches` and `_is_expected_terminal_event` of
-- `AnalysisRunner`.
use governed_analytics_agent.Common.{
  ℕ, zero, suc, ◌+◌, String, Bool, true, false, not, ◌&&◌, Option, none, some, List, [], ◌∷◌, raise,
  pure, ◌>>=◌, if◌then◌else◌, Dict, lookup, length, ◌==◌, str_eq, all_of,
}
use governed_analytics_agent.Agreement.{terminal_event_data}
use governed_analytics_agent.Contracts.Trace.{same_value, same_option}
use governed_analytics_agent.Events.Record.{RunEvent}
use governed_analytics_agent.Events.Store.{
  StoreError, has_terminal, high_water_mark, replay_snapshot, emit_terminal,
}
use governed_analytics_agent.Events.Values.{Value}
use governed_analytics_agent.Runner.Ports.{
  run_consistency, task_cancelled, Run, Answer, answered, refused, failed, cut, ask_events,
}
use governed_analytics_agent.Runs.Record.{RunResult}

-- `dict(event.data) == dict(expected)`, for texts as keys that are held once
unfoldable pub same_data : Dict Value → Dict Value → Bool
same_data values expected =
    (length values == length expected)
    && all_of
        (λ (entry : String × Value). same_option same_value (lookup entry.0 values) (some entry.1))
        expected

unfoldable pub is_expected_terminal_event : Dict Value → RunEvent → Bool
unfolding same_data
is_expected_terminal_event expected event =
    str_eq event.type "run.terminal" && same_data event.frozen expected

-- `event.sequence == index` for the events from `start` on
abbrev pub in_sequence : ℕ → List RunEvent → Bool
in_sequence start [] = true
in_sequence start (e ∷ es) = (e.sequence == start) && in_sequence (start + 1) es

-- Of the events but the last: none ends the run. Of the last: it is the expected one. There is a last.
abbrev pub ends_expected : Dict Value → List RunEvent → Bool
ends_expected expected [] = false
ends_expected expected (e ∷ []) = is_expected_terminal_event expected e
ends_expected expected (e ∷ e' ∷ es) =
    not (str_eq e.type "run.terminal") && ends_expected expected (e' ∷ es)

-- The tests of `_terminal_event_matches` on a snapshot.
unfoldable pub snapshot_matches : String → Dict Value → ℕ → List RunEvent → Bool
snapshot_matches run_id expected high_water snapshot =
    (length snapshot == high_water)
    && in_sequence 1 snapshot
    && all_of (λ (e : RunEvent). str_eq e.run_id run_id) snapshot
    && ends_expected expected snapshot

-- `_terminal_event_matches` from the high-water mark on; `none` is the source's `None`.
abbrev pub matches_up_to : String → Dict Value → Option ℕ → ℕ → Run (Option Bool)
matches_up_to run_id expected owner zero = pure (some false)
matches_up_to run_id expected owner (suc n) = do
  answer ← ask_events (λ now. replay_snapshot run_id (suc n) owner)
  elim answer [
    | answered snapshot ↦ pure (some (snapshot_matches run_id expected (suc n) snapshot))
    | refused e ↦ pure none
    | failed ↦ pure none
    | cut ↦ raise task_cancelled
  ]

unfoldable pub terminal_event_matches : String → Dict Value → Option ℕ → Run (Option Bool)
unfolding snapshot_matches
terminal_event_matches run_id expected owner = do
  answer ← ask_events (λ now. high_water_mark run_id owner)
  elim answer [
    | answered high_water ↦ matches_up_to run_id expected owner high_water
    | refused e ↦ pure none
    | failed ↦ pure none
    | cut ↦ raise task_cancelled
  ]

-- The flag of the first `try` of a round.
abbrev pub flag_or_false : Answer StoreError Bool → Run Bool
flag_or_false (answered flag) = pure flag
flag_or_false cut = raise task_cancelled
flag_or_false _ = pure false

-- The emission that a round ends with: whether the run's terminal event is the expected one.
unfoldable pub emit_expected : String → Dict Value → Option ℕ → Run Bool
emit_expected run_id expected owner = do
  answer ← ask_events (λ now. emit_terminal now run_id expected owner)
  elim answer [
    | answered event ↦ pure (is_expected_terminal_event expected event)
    | refused e ↦ pure false
    | failed ↦ pure false
    | cut ↦ raise task_cancelled
  ]

-- A round after the terminal flag was read; `true` is the return of the method.
unfoldable pub round_from : Bool → String → Dict Value → Option ℕ → Run Bool
unfolding emit_expected
round_from false run_id expected owner = emit_expected run_id expected owner
round_from true run_id expected owner = do
  matches ← terminal_event_matches run_id expected owner
  elim matches [ some same ↦ pure same | none ↦ emit_expected run_id expected owner ]

unfoldable pub round : String → Dict Value → Option ℕ → Run Bool
unfolding round_from
round run_id expected owner = do
  answer ← ask_events (λ now. has_terminal run_id owner)
  exists ← flag_or_false answer
  round_from exists run_id expected owner

-- After the rounds: the last look, where every exception counts as a mismatch.
abbrev pub or_mismatch : Option Bool → Run (Unit {0})
or_mismatch (some true) = pure tt
or_mismatch _ = raise run_consistency

unfoldable pub last_look : String → Dict Value → Option ℕ → Run (Unit {0})
unfolding terminal_event_matches
last_look run_id expected owner = do
  answer ← ask_events (λ now. has_terminal run_id owner)
  exists ← flag_or_false answer
  let looked : Run (Unit {0}) = terminal_event_matches run_id expected owner >>= λ m. or_mismatch m
  if exists then looked else raise run_consistency

unfoldable pub rounds : ℕ → String → Dict Value → Option ℕ → Run (Unit {0})
unfolding round last_look
rounds zero run_id expected owner = last_look run_id expected owner
rounds (suc n) run_id expected owner = do
  returned ← round run_id expected owner
  let next = rounds n run_id expected owner
  if returned then pure tt else next

-- `_ensure_event_terminal`
unfoldable pub ensure_event_terminal : String → RunResult → Option ℕ → Run (Unit {0})
unfolding rounds
ensure_event_terminal run_id result owner =
    rounds 3 run_id (terminal_event_data result.final_answer.status result.final_answer.stop_reason)
      owner
