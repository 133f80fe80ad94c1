-- ===== src/Runner/Careful.antt =====
-- What the work around a failure may raise: the task's cancellation, or the runner stops.
use governed_analytics_agent.Events.Store.{high_water_mark, delete_run}
use governed_analytics_agent.Runs.{get_run, delete_queued, delete_terminal}
use governed_analytics_agent.Common.{
  ℕ, zero, suc, ◌≡◌, String, Bool, true, Option, none, some, err, arith, inl, inr, ◌⊎◌, ◌>>=◌, pure,
  ◌≢◌,
}
use governed_analytics_agent.Runner.Coordination.{
  Task, Work, await, coordination_failure, raise_if_pending, run_record_after_delete, delete_record,
  delete_owned_queued_run, delete_terminal_run, event_generation_after_failure,
  event_high_water_after_failure, event_exists_after_failure, delete_events,
}
use governed_analytics_agent.Runner.Execution.{enter_fail_stop}
use governed_analytics_agent.Runner.Ports.{
  RunnerError, task_cancelled, run_consistency, ask_runs, ask_events,
}
use governed_analytics_agent.Runner.Records.{Result-cases}
use governed_analytics_agent.Runs as runs
use governed_analytics_agent.Runs.Record.{RunRecord, is_queued, is_terminal}
use governed_analytics_agent.Events.Store as events

-- A raise is the task's cancellation, or `RunConsistencyError` of a runner that has stopped.
abbrev pub IsFair : RunnerError → Task → Type 0
IsFair e t = (e ≡ task_cancelled) ⊎ ((e ≡ run_consistency) × (t.runner.consistency_failed ≡ true))

abbrev pub IsCareful : {A : Type 0} → Work A → Type 0
IsCareful m = (t : Task) (e : RunnerError) → (m t).0 ≡ err e → IsFair e (m t).1

pub pure-IsCareful : {A : Type 0} (a : A) → IsCareful (pure a)
pure-IsCareful a t e h = absurd (ground arith)

pub bind-IsCareful :
    {A B : Type 0} (m : Work A) (k : A → Work B)
    → IsCareful m
    → ((a : A) → IsCareful (k a))
    → IsCareful (m >>= k)
bind-IsCareful m k hm hk t e h = elim (Result-cases (m t).0) [
  | inl (a, done) ↦
      let next : (m >>= k) t ≡ k a (m t).1 = ground arith in rw next (hk a (m t).1 e (rw next at h))
  | inr (x, raised) ↦
      let same : (m >>= k) t ≡ (err x, (m t).1) = ground arith in
      let fair = hm t x raised in ground arith
]

pub await_runs-IsCareful :
    {A : Type 0} (method : ℕ → runs.Store A) → IsCareful (await (ask_runs method))
unfolding await ask_runs
await_runs-IsCareful method t e h = absurd (ground arith)

pub await_events-IsCareful :
    {A : Type 0} (method : ℕ → events.Store A) → IsCareful (await (ask_events method))
unfolding await ask_events
await_events-IsCareful method t e h = absurd (ground arith)

pub coordination_failure-IsCareful :
    {A : Type 0} (run_id : Option String) → IsCareful (coordination_failure {A = A} run_id)
unfolding coordination_failure enter_fail_stop
coordination_failure-IsCareful none t e h = ground arith
coordination_failure-IsCareful (some run_id) t e h = ground arith

pub raise_if_pending-IsCareful : IsCareful raise_if_pending
unfolding raise_if_pending
raise_if_pending-IsCareful t e h = ground arith

pub run_record_after_delete-IsCareful :
    (n : ℕ) (run_id : String) (owner : Option ℕ)
    → IsCareful (run_record_after_delete n run_id owner)
unfolding run_record_after_delete
run_record_after_delete-IsCareful zero run_id owner t e h =
    coordination_failure-IsCareful (some run_id) t e h
run_record_after_delete-IsCareful (suc n) run_id owner t e h =
    let looked = await (ask_runs (λ now. get_run run_id owner)) in
    ground (
      arith,
      await_runs-IsCareful (λ now. get_run run_id owner) t e,
      run_record_after_delete-IsCareful n run_id owner (looked t).1 e,
    )

pub delete_record-IsCareful :
    (n : ℕ) (method : String → Option ℕ → runs.Store Bool) (deletable : RunRecord → Bool)
    (run_id : String) (owner : Option ℕ)
    → IsCareful (delete_record n method deletable run_id owner)
unfolding delete_record
delete_record-IsCareful zero method deletable run_id owner t e h = absurd (ground arith)
delete_record-IsCareful (suc n) method deletable run_id owner t e h =
    let t1 = (await (ask_runs (λ now. method run_id owner)) t).1 in
    let t2 = (run_record_after_delete 3 run_id owner t1).1 in
    ground (
      arith,
      await_runs-IsCareful (λ now. method run_id owner) t e,
      run_record_after_delete-IsCareful 3 run_id owner t1 e,
      coordination_failure-IsCareful {A = Bool} (some run_id) t2 e,
      delete_record-IsCareful n method deletable run_id owner t2 e,
    )

pub delete_owned_queued_run-IsCareful :
    (run_id : String) (owner : Option ℕ) → IsCareful (delete_owned_queued_run run_id owner)
unfolding delete_owned_queued_run
delete_owned_queued_run-IsCareful run_id owner =
    delete_record-IsCareful 3 delete_queued (is_queued) run_id owner

pub delete_terminal_run-IsCareful :
    (run_id : String) (owner : Option ℕ) → IsCareful (delete_terminal_run run_id owner)
unfolding delete_terminal_run
delete_terminal_run-IsCareful run_id owner =
    delete_record-IsCareful 3 delete_terminal (is_terminal) run_id owner

pub event_generation_after_failure-IsCareful :
    (n : ℕ) (run_id : String) (owner : Option ℕ)
    → IsCareful (event_generation_after_failure n run_id owner)
unfolding event_generation_after_failure
event_generation_after_failure-IsCareful zero run_id owner t e h =
    coordination_failure-IsCareful (some run_id) t e h
event_generation_after_failure-IsCareful (suc n) run_id owner t e h =
    let t1 = (await (ask_events (λ now. high_water_mark run_id owner)) t).1 in
    ground (
      arith,
      await_events-IsCareful (λ now. high_water_mark run_id owner) t e,
      event_generation_after_failure-IsCareful n run_id owner t1 e,
    )

pub event_high_water_after_failure-IsCareful :
    (n : ℕ) (run_id : String) (owner : Option ℕ)
    → IsCareful (event_high_water_after_failure n run_id owner)
unfolding event_high_water_after_failure
event_high_water_after_failure-IsCareful zero run_id owner t e h =
    coordination_failure-IsCareful (some run_id) t e h
event_high_water_after_failure-IsCareful (suc n) run_id owner t e h =
    let t1 = (await (ask_events (λ now. high_water_mark run_id owner)) t).1 in
    ground (
      arith,
      await_events-IsCareful (λ now. high_water_mark run_id owner) t e,
      event_high_water_after_failure-IsCareful n run_id owner t1 e,
    )

pub event_exists_after_failure-IsCareful :
    (run_id : String) (owner : Option ℕ) → IsCareful (event_exists_after_failure run_id owner)
unfolding event_exists_after_failure
event_exists_after_failure-IsCareful run_id owner t e h =
    ground (arith, event_high_water_after_failure-IsCareful 3 run_id owner t e)

pub delete_events-IsCareful :
    (n : ℕ) (allow_unstarted : Bool) (run_id : String) (owner : Option ℕ)
    → IsCareful (delete_events n allow_unstarted run_id owner)
unfolding delete_events
delete_events-IsCareful zero allow_unstarted run_id owner t e h = absurd (ground arith)
delete_events-IsCareful (suc n) allow_unstarted run_id owner t e h =
    let t1 = (await (ask_events (λ now. delete_run run_id allow_unstarted owner)) t).1 in
    let t2 = (event_exists_after_failure run_id owner t1).1 in
    ground (
      arith,
      await_events-IsCareful (λ now. delete_run run_id allow_unstarted owner) t e,
      event_exists_after_failure-IsCareful run_id owner t1 e,
      delete_events-IsCareful n allow_unstarted run_id owner t2 e,
    )

-- A call of a store does not raise by itself: its answer tells.
pub await_runs_answers :
    {A : Type 0} (method : ℕ → runs.Store A) (t : Task) (e : RunnerError)
    → (await (ask_runs method) t).0 ≢ err e
unfolding await ask_runs
await_runs_answers method t e h = ground arith

pub await_events_answers :
    {A : Type 0} (method : ℕ → events.Store A) (t : Task) (e : RunnerError)
    → (await (ask_events method) t).0 ≢ err e
unfolding await ask_events
await_events_answers method t e h = ground arith
