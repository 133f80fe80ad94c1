-- ===== src/Runner/Started.antt =====
-- The agent's part of an execution, where the stores work.
use governed_analytics_agent.Runner.Steps.{stepped, ask_events_works, IsOpen}
use governed_analytics_agent.Common.{
  ℕ, suc, ◌+◌, ◌≡◌, ◌≢◌, refl, String, true, false, Option, none, some, ok, arith,
  lookup-insert_self, insert, str_eq, eq_iff, Bool-cases, inl, inr, length, length-append, ◌∷◌, [],
}
use governed_analytics_agent.Contracts.Answer.{is_allowed_reason}
use governed_analytics_agent.Contracts.Enums.{FinalStatus, StopReason}
use governed_analytics_agent.Common.Maybe.{◌>>=◌}
use governed_analytics_agent.Events.Freeze.{freeze_event_data, freeze_values, freeze_status}
use governed_analytics_agent.Events.Vocabulary.{event_type_of, member, event_nodes}
use governed_analytics_agent.Events.Record.{RunEvent}
use governed_analytics_agent.Events.Store.{EventStore, with_event, emit}
use governed_analytics_agent.Events.Store.Append.{append_lem, event_of}
use governed_analytics_agent.Events.Values.{snapshot_mapping, expect_keys, enum}
use governed_analytics_agent.Runner.Execution.{
  Context, Executed, valid, invalid, returned, cancelled, timed_out, timeout_error, raised_error,
  failure_result, validated_result, run_agent, result_of, after_start, started_data,
  internal_failure, validated_result, failure_result,
}
use governed_analytics_agent.Runner.Ports.{Runner, works}
use governed_analytics_agent.Runs.Record.{RunResult}

-- An answer of the agent has a reason that its status allows, as every `FinalAnswer` has.
abbrev pub IsAllowed : Executed → Type 0
IsAllowed (returned (valid result)) =
    is_allowed_reason result.final_answer.status result.final_answer.stop_reason ≡ true
IsAllowed _ = Unit

-- What becomes of the agent's execution, of `run_id` and with an allowed reason.
pub record Fits (run_id : String) (result : RunResult) : Type 0 where
  pub same_run : result.run_id ≡ run_id
  pub allowed : is_allowed_reason result.final_answer.status result.final_answer.stop_reason ≡ true

pub internal_failure-Fits :
    (run_id : String) (context : Option Context) → Fits run_id (internal_failure run_id context)
unfolding failure_result is_allowed_reason
internal_failure-Fits run_id none = record { same_run = refl; allowed = refl }
internal_failure-Fits run_id (some c) = record { same_run = refl; allowed = refl }

pub after_start-Fits :
    (run_id : String) (context : Option Context) (executed : Executed) (r : Runner)
    → executed ≢ cancelled
    → IsAllowed executed
    → (result : RunResult) × (after_start run_id context executed r ≡ (ok result, r))
      × Fits run_id result
unfolding result_of failure_result is_allowed_reason
after_start-Fits run_id none executed r live fine =
    (internal_failure run_id none, refl, internal_failure-Fits run_id none)
after_start-Fits run_id (some c) (returned (valid result)) r live fine =
    elim (Bool-cases (str_eq result.run_id run_id)) [
      | inl same ↦ (
        result,
        rw (validated_result, same) refl,
        record { same_run = ground (arith, eq_iff result.run_id run_id); allowed = fine },
      )
      | inr other ↦ (
        internal_failure run_id (some c),
        rw (validated_result, other) refl,
        internal_failure-Fits run_id (some c),
      )
    ]
after_start-Fits run_id (some c) (returned invalid) r live fine =
    (internal_failure run_id (some c), refl, internal_failure-Fits run_id (some c))
after_start-Fits run_id (some c) timed_out r live fine = (
  failure_result run_id (some c) FinalStatus.execution_failed StopReason.task_timeout,
  refl,
  record { same_run = refl; allowed = refl },
)
after_start-Fits run_id (some c) timeout_error r live fine =
    (internal_failure run_id (some c), refl, internal_failure-Fits run_id (some c))
after_start-Fits run_id (some c) raised_error r live fine =
    (internal_failure run_id (some c), refl, internal_failure-Fits run_id (some c))
after_start-Fits run_id (some c) cancelled r live fine = absurd (live refl)

pub started_frozen : freeze_event_data "runtime" "run.started" started_data ≡ some started_data
unfolding freeze_event_data ◌>>=◌ event_type_of member event_nodes snapshot_mapping freeze_values
    freeze_status expect_keys enum
started_frozen = refl

pub emit_started_lem :
    (now : ℕ) (run_id : String) (owner : Option ℕ) (room : ℕ) (s : EventStore)
    → (o : IsOpen run_id owner (suc room) s)
    → emit now run_id "runtime" "run.started" started_data owner s ≡ (
      ok (event_of now run_id (length o.buffer.events + 1) "runtime" "run.started" started_data),
      insert run_id
          (with_event o.buffer
            (event_of now run_id (length o.buffer.events + 1) "runtime" "run.started" started_data)
            false)
          s,
    )
unfolding emit
emit_started_lem now run_id owner room s o =
    append_lem now run_id "runtime" "run.started" started_data false owner s {b = o.buffer}
      {f = started_data} o.safe o.held o.kept o.mine o.unended started_frozen
      (ground (arith, o.roomy))

pub append-IsOpen :
    (run_id : String) (owner : Option ℕ) (room : ℕ) (s : EventStore) (e : RunEvent)
    → (o : IsOpen run_id owner (suc room) s)
    → IsOpen run_id owner room (insert run_id (with_event o.buffer e false) s)
unfolding with_event
append-IsOpen run_id owner room s e o = record {
  buffer = with_event o.buffer e false;
  safe = o.safe;
  held = lookup-insert_self run_id (with_event o.buffer e false) s;
  kept = o.kept;
  mine = o.mine;
  unended = o.unended;
  roomy = omega (arith, o.roomy, length-append o.buffer.events (e ∷ []));
}

-- The agent's part ends with a result, and the run stays open.
pub run_agent_works :
    (run_id : String) (owner : Option ℕ) (room : ℕ) (context : Option Context) (executed : Executed)
    (r : Runner)
    → (r.turns r.calls).fault ≡ works
    → executed ≢ cancelled
    → IsAllowed executed
    → IsOpen run_id owner (suc room) r.event_store
    → (result : RunResult) × (es : EventStore) × (run_agent run_id owner context executed r
        ≡ (ok result, stepped r.run_store es r))
      × Fits run_id result
      × IsOpen run_id owner room es
unfolding run_agent
run_agent_works run_id owner room context executed r steady live fine o =
    let now = (r.turns r.calls).now in
    let e = event_of now run_id (length o.buffer.events + 1) "runtime" "run.started" started_data in
    let es = insert run_id (with_event o.buffer e false) r.event_store in
    let (result, ends, fits) =
      after_start-Fits run_id context executed (stepped r.run_store es r) live fine in
    (
      result,
      es,
      ground (
        arith,
        ask_events_works (λ now. emit now run_id "runtime" "run.started" started_data owner) r
            steady,
        emit_started_lem now run_id owner room r.event_store o,
        ends,
      ),
      fits,
      append-IsOpen run_id owner room r.event_store e o,
    )
