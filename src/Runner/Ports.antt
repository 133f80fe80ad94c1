-- ===== src/Runner/Ports.antt =====
-- The state of `AnalysisRunner` of runtime/runs.py, and a call of one of its two stores. A store may
-- fail: a call raises before its effect or after it, and the task may be cancelled while it waits. A
-- `CancelledError` that does not come from a cancellation of the task is handled like any exception.
-- Between two calls of a task nothing else happens to the stores.
use governed_analytics_agent.Common.{
  ℕ, ◌+◌, String, Bool, true, false, List, Result, ok, err, Action, Dict,
}
use governed_analytics_agent.Events.Store.{EventStore, StoreError}
use governed_analytics_agent.Events.Store as events
use governed_analytics_agent.Runs.{RunStore, RunError}
use governed_analytics_agent.Runs as runs

pub data Fault : Type 0 where
  works lost unconfirmed cut_before cut_after : Fault

-- How a call goes, and the clock that the store reads in it.
pub record Turn : Type 0 where
  pub fault : Fault
  pub now : ℕ

-- `turns` tells how each of the calls goes, and `calls` counts those made. Of a task,
-- `tasks` holds the run.
pub record Runner : Type 0 where
  pub run_store : RunStore
  pub event_store : EventStore
  pub turns : ℕ → Turn
  pub calls : ℕ
  pub accepting : Bool
  pub consistency_failed : Bool
  pub run_failures : List String
  pub ownership_tokens : Dict ℕ
  pub tasks : List String

-- What the awaiting code sees: a value, an error of the store, another exception, or its own
-- cancellation.
pub data Answer (E A : Type 0) : Type 0 where
  answered : A → Answer E A
  refused : E → Answer E A
  failed cut : Answer E A

-- `RunConsistencyError`, the `CancelledError` of the task, `RunnerShutdown`, `RunSubmissionFailed`,
-- the errors of the run store that pass through, and its other exceptions.
pub data RunnerError : Type 0 where
  run_consistency task_cancelled runner_shutdown run_submission_failed dependency_failed :
      RunnerError
  run_store_error : RunError → RunnerError

abbrev pub Run : Type 0 → Type 0
Run A = Action Runner RunnerError A

abbrev pub answer_of : {E A : Type 0} → Result E A → Answer E A
answer_of (ok a) = answered a
answer_of (err e) = refused e

-- The answer that a fault leaves, and whether the call had its effect.
abbrev pub seen : {E A : Type 0} → Fault → Answer E A → Answer E A
seen works answer = answer
seen lost answer = failed
seen unconfirmed answer = failed
seen cut_before answer = cut
seen cut_after answer = cut

abbrev pub has_effect : Fault → Bool
has_effect works = true
has_effect lost = false
has_effect unconfirmed = true
has_effect cut_before = false
has_effect cut_after = true

abbrev pick : {S : Type 0} → Bool → S → S → S
pick true after before = after
pick false after before = before

-- A call of the run store.
unfoldable pub ask_runs : {A : Type 0} → (ℕ → runs.Store A) → Run (Answer RunError A)
ask_runs method r =
    let turn = r.turns r.calls in
    let (result, after) = method turn.now r.run_store in
    (
      ok (seen turn.fault (answer_of result)),
      record r { run_store = pick (has_effect turn.fault) after r.run_store; calls = r.calls + 1 },
    )

-- A call of the event store.
unfoldable pub ask_events : {A : Type 0} → (ℕ → events.Store A) → Run (Answer StoreError A)
ask_events method r =
    let turn = r.turns r.calls in
    let (result, after) = method turn.now r.event_store in
    (
      ok (seen turn.fault (answer_of result)),
      record r {
        event_store = pick (has_effect turn.fault) after r.event_store;
        calls = r.calls + 1;
      },
    )
