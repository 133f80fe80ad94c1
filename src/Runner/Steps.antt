-- ===== src/Runner/Steps.antt =====
-- One call of a store that works, and what the methods answer for a run that waits or is open.
use governed_analytics_agent.Common.{
  ℕ, suc, ◌+◌, ◌≡◌, refl, String, Bool, true, false, Option, some, ok, arith, lookup, insert,
  eq_iff, length, ◌≤◌,
}
use governed_analytics_agent.Contracts.Trace.{same_value}
use governed_analytics_agent.Contracts.Reflexive.{str_eq_refl}
use governed_analytics_agent.Agreement.{terminal_event_data, freeze-terminal_event_data}
use governed_analytics_agent.Contracts.Answer.{is_allowed_reason}
use governed_analytics_agent.Contracts.Enums.{
  FinalStatus, StopReason, final_status_value, stop_reason_value,
}
use governed_analytics_agent.Events.Identifiers.{safe_run_id}
use governed_analytics_agent.Events.Record.{RunEvent, max_sequence}
use governed_analytics_agent.Events.Store as events
use governed_analytics_agent.Events.Store.{
  EventStore, RunBuffer, with_event, emit, emit_terminal, has_terminal,
}
use governed_analytics_agent.Events.Store.Append.{append_lem, event_of}
use governed_analytics_agent.Runner.Ports.{Runner, works, ask_runs, ask_events, answer_of}
use governed_analytics_agent.Runner.Reconcile.{reconciled, reconcile, is_complete}
use governed_analytics_agent.Runner.Terminal.{is_expected_terminal_event}
use governed_analytics_agent.Runs.Trace.{matches_result_same, is_terminal-terminal_record}
use governed_analytics_agent.Runs as runs
use governed_analytics_agent.Runs.{
  RunStore, mark_running, complete, with_record, is_foreign, require,
}
use governed_analytics_agent.Runs.Record.{
  RunRecord, RunResult, is_queued, is_running, running_record, terminal_record,
}

-- The runner after one call that the stores answer with their new states.
abbrev pub stepped : RunStore → EventStore → Runner → Runner
stepped s es r = record r { run_store = s; event_store = es; calls = r.calls + 1 }

pub ask_runs_works :
    {A : Type 0} (method : ℕ → runs.Store A) (r : Runner)
    → (r.turns r.calls).fault ≡ works
    → ask_runs method r ≡ (
      ok (answer_of (method (r.turns r.calls).now r.run_store).0),
      stepped (method (r.turns r.calls).now r.run_store).1 r.event_store r,
    )
unfolding ask_runs
ask_runs_works method r h = ground arith

pub ask_events_works :
    {A : Type 0} (method : ℕ → events.Store A) (r : Runner)
    → (r.turns r.calls).fault ≡ works
    → ask_events method r ≡ (
      ok (answer_of (method (r.turns r.calls).now r.event_store).0),
      stepped r.run_store (method (r.turns r.calls).now r.event_store).1 r,
    )
unfolding ask_events
ask_events_works method r h = ground arith

-- A round of the loop that ends it.
pub reconcile_works :
    (n : ℕ) (method : ℕ → runs.Store RunRecord) (run_id : String) (owner : Option ℕ)
    (done again : RunRecord → Bool) (r : Runner) (found : RunRecord) (s : RunStore)
    → (r.turns r.calls).fault ≡ works
    → method (r.turns r.calls).now r.run_store ≡ (ok found, s)
    → done found ≡ true
    → reconcile (suc n) method run_id owner done again r ≡ (ok tt, stepped s r.event_store r)
unfolding reconcile reconciled
reconcile_works n method run_id owner done again r found s h e good =
    ground (arith, ask_runs_works method r h)

pub mark_running_lem :
    (now : ℕ) (run_id : String) (owner : Option ℕ) (s : RunStore) {found : RunRecord}
    → lookup run_id s.records ≡ some found
    → is_foreign owner (lookup run_id s.owners) ≡ false
    → is_queued found ≡ true
    → mark_running now run_id owner s
      ≡ (ok (running_record now found), with_record run_id (running_record now found) s)
unfolding mark_running require
mark_running_lem now run_id owner s held mine queued = ground arith

pub complete_lem :
    (now : ℕ) (run_id : String) (result : RunResult) (owner : Option ℕ) (s : RunStore)
    {found : RunRecord}
    → result.run_id ≡ run_id
    → lookup run_id s.records ≡ some found
    → is_foreign owner (lookup run_id s.owners) ≡ false
    → is_running found ≡ true
    → complete now run_id result owner s ≡ (
      ok (terminal_record now result found),
      with_record run_id (terminal_record now result found) s,
    )
unfolding complete require
complete_lem now run_id result owner s {found} same held mine running =
    ground (arith, eq_iff result.run_id run_id)

pub is_running-running_record :
    (now : ℕ) (found : RunRecord) → is_running (running_record now found) ≡ true
unfolding running_record
is_running-running_record now found = refl

pub completed :
    (now : ℕ) (result : RunResult) (found : RunRecord)
    → is_complete result (terminal_record now result found) ≡ true
completed now result found =
    ground
      (arith, matches_result_same now result found, is_terminal-terminal_record now result found)

-- The run's buffer takes `room` more events from `owner`.
pub record IsOpen (run_id : String) (owner : Option ℕ) (room : ℕ) (s : EventStore) : Type 0 where
  pub buffer : RunBuffer
  pub safe : safe_run_id run_id ≡ true
  pub held : lookup run_id s ≡ some buffer
  pub kept : buffer.deleted ≡ false
  pub mine : events.is_foreign owner buffer.owner_token ≡ false
  pub unended : buffer.terminal ≡ false
  pub roomy : length buffer.events + room ≤ max_sequence

pub has_terminal_lem :
    (run_id : String) (owner : Option ℕ) (room : ℕ) (s : EventStore)
    → IsOpen run_id owner room s
    → has_terminal run_id owner s ≡ (ok false, s)
unfolding has_terminal
has_terminal_lem run_id owner room s o = ground arith

-- The terminal event, as it is appended.
pub ending : ℕ → String → FinalStatus → StopReason → RunBuffer → RunEvent
ending now run_id status reason b =
    event_of now run_id (length b.events + 1) "runtime" "run.terminal"
      (terminal_event_data status reason)

pub ending_expected :
    (now : ℕ) (run_id : String) (status : FinalStatus) (reason : StopReason) (b : RunBuffer)
    → is_expected_terminal_event
        (terminal_event_data status reason)
        (ending now run_id status reason b)
      ≡ true
unfolding is_expected_terminal_event terminal_event_data same_value ending
ending_expected now run_id status reason b =
    ground (arith, str_eq_refl (final_status_value status), str_eq_refl (stop_reason_value reason))

pub emit_terminal_lem :
    (now : ℕ) (run_id : String) (owner : Option ℕ) (room : ℕ) (status : FinalStatus)
    (reason : StopReason) (s : EventStore)
    → is_allowed_reason status reason ≡ true
    → (o : IsOpen run_id owner (suc room) s)
    → emit_terminal now run_id (terminal_event_data status reason) owner s ≡ (
      ok (ending now run_id status reason o.buffer),
      insert run_id (with_event o.buffer (ending now run_id status reason o.buffer) true) s,
    )
unfolding emit_terminal ending
emit_terminal_lem now run_id owner room status reason s allowed o =
    append_lem now run_id "runtime" "run.terminal" (terminal_event_data status reason) true owner s
      {b = o.buffer} {f = terminal_event_data status reason} o.safe o.held o.kept o.mine o.unended
      (rw (freeze-terminal_event_data status reason, allowed) refl) (ground (arith, o.roomy))
