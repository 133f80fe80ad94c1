-- ===== src/Runner/Outcome.antt =====
-- What `_execute` leaves behind: two stores that agree, or a runner that has stopped.
use governed_analytics_agent.Runner.Told.{IsTold, Ended-IsTold}
use governed_analytics_agent.Common.{
  ℕ, ◌≡◌, refl, String, true, false, Option, some, ok, err, arith, lookup, eq_iff, Option-cases,
  inl, inr, ◌⊎◌, ◌≢◌,
}
use governed_analytics_agent.Agreement.{terminal_event_data}
use governed_analytics_agent.Contracts.Enums.{
  FinalStatus, StopReason, final_status_value, stop_reason_value,
}
use governed_analytics_agent.Runner.Endings.{Ended, rounds-Ended}
use governed_analytics_agent.Runner.Execution.{
  Context, Executed, run_agent, conclude, settle_run, execute, enter_fail_stop, get,
}
use governed_analytics_agent.Runner.Ports.{
  Runner, RunnerError, run_consistency, task_cancelled, runner_shutdown, run_submission_failed,
  dependency_failed, run_store_error,
}
use governed_analytics_agent.Events.Store.{EventStore}
use governed_analytics_agent.Runner.Reconcile.{ensure_running, ensure_run_terminal, is_complete}
use governed_analytics_agent.Runner.Records.{
  Result-cases, Holds, reconcile-Holds, complete-Returns, mark_running-Returns,
}
use governed_analytics_agent.Runner.Terminal.{ensure_event_terminal}
use governed_analytics_agent.Runner.Untouched.{rounds_runs}
use governed_analytics_agent.Runs.Record.{
  RunRecord, RunResult, is_terminal, is_running, matches_result,
}

-- The record of the run is terminal, and the run's history has the terminal event of its status and
-- stop reason.
abbrev pub Concluded : String → Runner → Type 0
Concluded run_id r =
    (found : RunRecord) × (status : FinalStatus) × (reason : StopReason) × (lookup run_id
        r.run_store.records
      ≡ some found)
    × (is_terminal found ≡ true)
    × (found.final_status ≡ some status)
    × (found.stop_reason ≡ some reason)
    × IsTold run_id status reason r.event_store

-- When `_ensure_running` returns, the store holds a running record of the run.
pub ensure_running_lem :
    (run_id : String) (owner : Option ℕ) (r : Runner)
    → (ensure_running run_id owner r).0 ≡ ok tt
    → Holds run_id (is_running) (ensure_running run_id owner r).1
unfolding ensure_running
ensure_running_lem run_id owner r h =
    reconcile-Holds 3 _ run_id owner _ _ r (mark_running-Returns run_id owner) h

ensure_run_terminal_lem :
    (run_id : String) (result : RunResult) (owner : Option ℕ) (r : Runner)
    → (ensure_run_terminal run_id result owner r).0 ≡ ok tt
    → Holds run_id (is_complete result) (ensure_run_terminal run_id result owner r).1
unfolding ensure_run_terminal
ensure_run_terminal_lem run_id result owner r h =
    reconcile-Holds 3 _ run_id owner _ _ r (complete-Returns run_id result owner) h

ensure_event_terminal_lem :
    (run_id : String) (result : RunResult) (owner : Option ℕ) (r : Runner)
    → (ensure_event_terminal run_id result owner r).0 ≡ ok tt
    → Ended run_id
        (terminal_event_data result.final_answer.status result.final_answer.stop_reason)
        (ensure_event_terminal run_id result owner r).1.event_store
      × ((ensure_event_terminal run_id result owner r).1.run_store ≡ r.run_store)
unfolding ensure_event_terminal
ensure_event_terminal_lem run_id result owner r h =
    (rounds-Ended 3 run_id _ owner r h, rounds_runs 3 run_id _ owner r)

-- A record that matches a result has its status and reason, as texts.
matches_texts :
    (found : RunRecord) (result : RunResult)
    → matches_result found result ≡ true
    → (status : FinalStatus) × (reason : StopReason) × (found.final_status ≡ some status)
      × (found.stop_reason ≡ some reason)
      × (final_status_value status ≡ final_status_value result.final_answer.status)
      × (stop_reason_value reason ≡ stop_reason_value result.final_answer.stop_reason)
unfolding matches_result
matches_texts found result h = elim (Option-cases found.final_status) [
  | inl missing ↦ absurd (ground arith)
  | inr (status, es) ↦ elim (Option-cases found.stop_reason) [
    | inl missing ↦ absurd (ground arith)
    | inr (reason, er) ↦ (
      status,
      reason,
      es,
      er,
      ground (
        arith,
        eq_iff (final_status_value status) (final_status_value result.final_answer.status),
      ),
      ground (
        arith,
        eq_iff (stop_reason_value reason) (stop_reason_value result.final_answer.stop_reason),
      ),
    )
  ]
]

Ended-texts :
    (run_id : String) (s s' : FinalStatus) (x x' : StopReason) (runs : EventStore)
    → final_status_value s ≡ final_status_value s'
    → stop_reason_value x ≡ stop_reason_value x'
    → Ended run_id (terminal_event_data s' x') runs
    → Ended run_id (terminal_event_data s x) runs
unfolding terminal_event_data
Ended-texts run_id s s' x x' runs h k (b, found, ended) = (b, found, rw (h, k) ended)

concluded :
    (run_id : String) (result : RunResult) (found : RunRecord) (r : Runner)
    → lookup run_id r.run_store.records ≡ some found
    → is_complete result found ≡ true
    → Ended run_id
        (terminal_event_data result.final_answer.status result.final_answer.stop_reason)
        r.event_store
    → Concluded run_id r
concluded run_id result found r held complete ended =
    let (status, reason, es, er, ts, tr) = matches_texts found result (ground arith) in
    (
      found,
      status,
      reason,
      held,
      ground arith,
      es,
      er,
      Ended-IsTold run_id status reason r.event_store (
          Ended-texts run_id status result.final_answer.status reason
            result.final_answer.stop_reason r.event_store ts tr ended),
    )

conclude_lem :
    (run_id : String) (owner : Option ℕ) (result : RunResult) (r : Runner)
    → (conclude run_id owner result r).0 ≡ ok tt
    → Concluded run_id (conclude run_id owner result r).1
unfolding conclude
conclude_lem run_id owner result r h =
    let r' = (ensure_run_terminal run_id result owner r).1 in
    elim (Result-cases (ensure_run_terminal run_id result owner r).0) [
      | inr (x, raised) ↦ absurd (ground arith)
      | inl (u, e) ↦
          let next : conclude run_id owner result r ≡ ensure_event_terminal run_id result owner r' =
            ground arith in
          let (found, held, complete) = ensure_run_terminal_lem run_id result owner r e in
          let (ended, kept) = ensure_event_terminal_lem run_id result owner r' (rw next at h) in
          rw next (
            concluded run_id result found (ensure_event_terminal run_id result owner r').1
              (rw kept held) complete ended)
    ]

settled :
    (run_id : String) (owner : Option ℕ) (context : Option Context) (executed : Executed)
    (r : Runner)
    → (settle_run run_id owner context executed r).0 ≡ ok tt
    → Concluded run_id (settle_run run_id owner context executed r).1
unfolding settle_run
settled run_id owner context executed r h =
    let r1 = (ensure_running run_id owner r).1 in
    let r2 = (run_agent run_id owner context executed r1).1 in
    elim (Result-cases (ensure_running run_id owner r).0) [
      | inr (x, raised) ↦ absurd (ground arith)
      | inl (u, e) ↦ elim (Result-cases (run_agent run_id owner context executed r1).0) [
        | inr (x, raised) ↦ absurd (ground arith)
        | inl (result, e') ↦
            let next : settle_run run_id owner context executed r
                ≡ conclude run_id owner result r2 =
              ground arith in
            rw next (conclude_lem run_id owner result r2 (rw next at h))
      ]
    ]

-- When the execution of a run returns, whatever the stores' faults on the way and however the agent
-- ended, the run's record is terminal, and its history holds the terminal event with the record's
-- final status and stop reason.
pub execute_concludes :
    (run_id : String) (owner : Option ℕ) (context : Option Context) (executed : Executed)
    (r : Runner)
    → (execute run_id owner context executed r).0 ≡ ok tt
    → Concluded run_id (execute run_id owner context executed r).1
unfolding execute
execute_concludes run_id owner context executed r h =
    elim (Result-cases (settle_run run_id owner context executed r).0) [
      | inr (x, raised) ↦ absurd (ground arith)
      | inl (u, e) ↦
          let same : (execute run_id owner context executed r).1
              ≡ (settle_run run_id owner context executed r).1 =
            ground arith in
          rw same (settled run_id owner context executed r e)
    ]

is_cancelled : (x : RunnerError) → (x ≡ task_cancelled) ⊎ (x ≢ task_cancelled)
is_cancelled task_cancelled = inl refl
is_cancelled run_consistency = inr (λ e. ground (arith, e))
is_cancelled runner_shutdown = inr (λ e. ground (arith, e))
is_cancelled run_submission_failed = inr (λ e. ground (arith, e))
is_cancelled dependency_failed = inr (λ e. ground (arith, e))
is_cancelled (run_store_error y) = inr (λ e. ground (arith, e))

get_stopped :
    (run_id : String) (r : Runner)
    → r.consistency_failed ≡ true
    → (get run_id r).0 ≡ err run_consistency
unfolding get
get_stopped run_id r h = ground arith

-- An execution that does not return was cancelled with its task, or has stopped the runner: it raises
-- `RunConsistencyError`, the runner accepts no more runs, and from then on every `get` raises
-- `RunConsistencyError` too.
pub execute_stops :
    (run_id : String) (owner : Option ℕ) (context : Option Context) (executed : Executed)
    (r : Runner) {e : RunnerError}
    → (execute run_id owner context executed r).0 ≡ err e
    → (e ≡ task_cancelled)
      ⊎ ((e ≡ run_consistency)
          × ((execute run_id owner context executed r).1.accepting ≡ false)
          × ((other : String)
              → (get other (execute run_id owner context executed r).1).0 ≡ err run_consistency))
unfolding execute enter_fail_stop
execute_stops run_id owner context executed r {e} h =
    elim (Result-cases (settle_run run_id owner context executed r).0) [
      | inl (u, done) ↦ absurd (ground arith)
      | inr (x, raised) ↦ elim (is_cancelled x) [
        | inl cut ↦ inl (ground arith)
        | inr other ↦
            let stopped : (execute run_id owner context executed r).1.consistency_failed ≡ true =
              ground arith in
            inr (
              ground arith,
              ground arith,
              λ j. get_stopped j (execute run_id owner context executed r).1 stopped,
            )
      ]
    ]
