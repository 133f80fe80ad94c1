-- ===== src/Runner/Execution.antt =====
-- `_execute` of `AnalysisRunner`, `_failure_result`, `_validated_result`, the fail-stop and `get`. What
-- happens while the timeout runs is in the arguments: what the factory of the context gives, and how
-- the agent's execution ends. The semaphore and the locks order the tasks and are left out.
use governed_analytics_agent.Common.{
  ℕ, String, Bool, true, false, ◌||◌, Option, none, some, [], ◌∷◌, Result, ok, err, raise, pure,
  ◌>>=◌, ◌>>◌, if◌then◌else◌, str_eq, Dict,
}
use governed_analytics_agent.Contracts.Enums.{FinalStatus, StopReason}
use governed_analytics_agent.Contracts.Governance.{GovernanceSnapshot, empty_snapshot}
use governed_analytics_agent.Contracts.Trace.{SafeTrace, empty_trace}
use governed_analytics_agent.Events.Store.{emit}
use governed_analytics_agent.Events.Values.{Value, text}
use governed_analytics_agent.Events.Vocabulary.{member}
use governed_analytics_agent.Runner.Ports.{
  Runner, RunnerError, run_consistency, task_cancelled, run_store_error, dependency_failed, Run,
  answered, refused, failed, cut, ask_events, ask_runs,
}
use governed_analytics_agent.Runner.Reconcile.{ensure_running, ensure_run_terminal}
use governed_analytics_agent.Runner.Terminal.{ensure_event_terminal}
use governed_analytics_agent.Runs.{get_run}
use governed_analytics_agent.Runs.Record.{RunRecord, RunResult}

-- What `context.budget.snapshot` and `context.trace_recorder.snapshot()` give; `none` is an exception.
pub record Context : Type 0 where
  pub governance : Option GovernanceSnapshot
  pub safe_trace : Option SafeTrace

abbrev is_task_timeout : StopReason → Bool
is_task_timeout StopReason.task_timeout = true
is_task_timeout _ = false

-- `deterministic_failure_result`
unfoldable pub deterministic_failure_result :
    String → FinalStatus → StopReason → GovernanceSnapshot → SafeTrace → RunResult
deterministic_failure_result run_id status reason governance safe_trace = record {
  run_id = run_id;
  evidence = [];
  evidence_gaps = [];
  governance = governance;
  final_answer = record {
    status = status;
    stop_reason = reason;
    answer = if is_task_timeout reason then "分析因执行超时终止。" else "分析因内部受控错误终止。";
    evidence_ids = [];
    completed_dimensions = [];
    missing_dimensions = [];
    limitations = [];
    result_summary = none;
  };
  safe_trace = safe_trace;
}

abbrev or_else : {A : Type 0} → Option A → A → A
or_else none a = a
or_else (some b) a = b

-- `_failure_result`
unfoldable pub failure_result : String → Option Context → FinalStatus → StopReason → RunResult
unfolding deterministic_failure_result
failure_result run_id none status reason =
    deterministic_failure_result run_id status reason empty_snapshot empty_trace
failure_result run_id (some c) status reason =
    deterministic_failure_result run_id status reason (or_else c.governance empty_snapshot)
      (or_else c.safe_trace empty_trace)

abbrev pub internal_failure : String → Option Context → RunResult
internal_failure run_id context =
    failure_result run_id context FinalStatus.internal_error StopReason.internal_error

-- What the executor returns: an `AgentRunResult` that validates again, or something else.
pub data Candidate : Type 0 where
  valid : RunResult → Candidate
  invalid : Candidate

-- `_validated_result`
unfoldable pub validated_result : String → Candidate → Option Context → RunResult
unfolding failure_result
validated_result run_id (valid owned) context =
    if str_eq owned.run_id run_id then owned else internal_failure run_id context
validated_result run_id invalid context = internal_failure run_id context

-- How the agent's execution ends: it returns, its time is over, it raises a `TimeoutError` of its own or
-- any other exception, or the task is cancelled.
pub data Executed : Type 0 where
  returned : Candidate → Executed
  timed_out timeout_error raised_error cancelled : Executed

-- The `except` and `else` clauses around the timeout.
unfoldable pub result_of : String → Context → Executed → Run RunResult
unfolding failure_result validated_result
result_of run_id context (returned candidate) =
    pure (validated_result run_id candidate (some context))
result_of run_id context timed_out =
    pure (failure_result run_id (some context) FinalStatus.execution_failed StopReason.task_timeout)
result_of run_id context timeout_error = pure (internal_failure run_id (some context))
result_of run_id context raised_error = pure (internal_failure run_id (some context))
result_of run_id context cancelled = raise task_cancelled

-- After `run.started` was emitted; `none` is a context whose factory raised.
abbrev pub after_start : String → Option Context → Executed → Run RunResult
after_start run_id none executed = pure (internal_failure run_id none)
after_start run_id (some context) executed = result_of run_id context executed

abbrev pub started_data : Dict Value
started_data = ("status", text "running") ∷ []

unfoldable pub run_agent : String → Option ℕ → Option Context → Executed → Run RunResult
unfolding failure_result result_of
run_agent run_id owner context executed = do
  answer ← ask_events (λ now. emit now run_id "runtime" "run.started" started_data owner)
  elim answer [
    | answered event ↦ after_start run_id context executed
    | refused e ↦ pure (internal_failure run_id context)
    | failed ↦ pure (internal_failure run_id context)
    | cut ↦ raise task_cancelled
  ]

-- `_ensure_run_terminal` and `_ensure_event_terminal`, in their order.
unfoldable pub conclude : String → Option ℕ → RunResult → Run (Unit {0})
unfolding ensure_run_terminal ensure_event_terminal
conclude run_id owner result = do
  ensure_run_terminal run_id result owner
  ensure_event_terminal run_id result owner

-- `_execute` up to the pruning of expired runs.
unfoldable pub settle_run : String → Option ℕ → Option Context → Executed → Run (Unit {0})
unfolding ensure_running run_agent conclude
settle_run run_id owner context executed = do
  ensure_running run_id owner
  result ← run_agent run_id owner context executed
  conclude run_id owner result

-- `_enter_fail_stop`
unfoldable pub enter_fail_stop : Option String → Runner → Runner
enter_fail_stop none r = record r { accepting = false; consistency_failed = true }
enter_fail_stop (some run_id) r = record r {
  accepting = false;
  consistency_failed = true;
  run_failures = run_id ∷ r.run_failures;
}

-- `_execute`: its `except` clauses around `settle_run`.
unfoldable pub execute : String → Option ℕ → Option Context → Executed → Run (Unit {0})
unfolding settle_run enter_fail_stop
execute run_id owner context executed r =
    let (answer, r') = settle_run run_id owner context executed r in
    elim answer [
      | ok u ↦ (ok tt, r')
      | err task_cancelled ↦ (err task_cancelled, r')
      | err _ ↦ (err run_consistency, enter_fail_stop (some run_id) r')
    ]

abbrev pub is_failed : String → Runner → Bool
is_failed run_id r = r.consistency_failed || member run_id r.run_failures

-- `get`; the second look at the flags finds them as they were.
unfoldable pub get : String → Run RunRecord
get run_id r =
    let (answer, r') = ask_runs (λ now. get_run run_id none) r in
    let found : Result RunnerError RunRecord × Runner = elim answer [
      | ok (answered record_found) ↦
          if is_failed run_id r' then (err run_consistency, r') else (ok record_found, r')
      | ok (refused e) ↦ (err (run_store_error e), r')
      | ok failed ↦ (err dependency_failed, r')
      | ok cut ↦ (err task_cancelled, r')
      | err e ↦ (err e, r')
    ] in
    if is_failed run_id r then (err run_consistency, r) else found
