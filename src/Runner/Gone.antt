-- ===== src/Runner/Gone.antt =====
-- After a deletion that is confirmed, and after a rollback, the run store has no record of the run.
use governed_analytics_agent.Events.Store as events
use governed_analytics_agent.Events.Store.{high_water_mark}
use governed_analytics_agent.Runner.Execution.{enter_fail_stop}
use governed_analytics_agent.Runner.Careful.{await_runs_answers}
use governed_analytics_agent.Runner.Records.{Result-cases}
use governed_analytics_agent.Runs.Record.{RunRecord, is_queued}
use governed_analytics_agent.Runner.Rollback.{rollback_record, rollback_submission, if_missing}
use governed_analytics_agent.Runs.{get_run, require, delete_queued}
use governed_analytics_agent.Common.{
  ℕ, zero, suc, ◌≡◌, refl, String, Bool, true, false, Option, none, some, ok, arith, inl, inr,
  lookup,
}
use governed_analytics_agent.Runner.Coordination.{
  Task, await, missing, owned, foreign, run_record_after_delete, delete_record,
  delete_owned_queued_run, event_generation_after_failure, coordination_failure, raise_if_pending,
  record_of, delete_events,
}
use governed_analytics_agent.Runner.Ports.{ask_runs, ask_events, Answer}
use governed_analytics_agent.Runs as runs

abbrev pub HasNone : String → Task → Type 0
HasNone run_id t = lookup run_id t.runner.run_store.records ≡ none

-- A look that finds no record tells the truth.
looked_in_vain :
    (run_id : String) (owner : Option ℕ) (t : Task) {answer : Answer runs.RunError RunRecord}
    → (await (ask_runs (λ now. get_run run_id owner)) t).0 ≡ ok answer
    → record_of answer ≡ some none
    → HasNone run_id (await (ask_runs (λ now. get_run run_id owner)) t).1
unfolding await ask_runs get_run require
looked_in_vain run_id owner t {answer} h k = ground arith

pub run_record_after_delete_lem :
    (n : ℕ) (run_id : String) (owner : Option ℕ) (t : Task)
    → (run_record_after_delete n run_id owner t).0 ≡ ok none
    → HasNone run_id (run_record_after_delete n run_id owner t).1
unfolding run_record_after_delete coordination_failure raise_if_pending enter_fail_stop if_missing
run_record_after_delete_lem zero run_id owner t h = absurd (ground arith)
run_record_after_delete_lem (suc n) run_id owner t h =
    let looked = await (ask_runs (λ now. get_run run_id owner)) t in
    elim (Result-cases looked.0) [
      | inr (x, raised) ↦ absurd (await_runs_answers (λ now. get_run run_id owner) t x raised)
      | inl (answer, said) ↦ ground (
        arith,
        looked_in_vain run_id owner t {answer = answer} said,
        run_record_after_delete_lem n run_id owner looked.1,
      )
    ]

delete_record_lem :
    (n : ℕ) (method : String → Option ℕ → runs.Store Bool) (deletable : RunRecord → Bool)
    (run_id : String) (owner : Option ℕ) (t : Task)
    → (delete_record n method deletable run_id owner t).0 ≡ ok true
    → HasNone run_id (delete_record n method deletable run_id owner t).1
unfolding delete_record coordination_failure raise_if_pending enter_fail_stop if_missing
delete_record_lem zero method deletable run_id owner t h = absurd (ground arith)
delete_record_lem (suc n) method deletable run_id owner t h =
    let t1 = (await (ask_runs (λ now. method run_id owner)) t).1 in
    let t2 = (run_record_after_delete 3 run_id owner t1).1 in
    ground (
      arith,
      run_record_after_delete_lem 3 run_id owner t1,
      delete_record_lem n method deletable run_id owner t2,
    )

pub delete_owned_queued_run_lem :
    (run_id : String) (owner : Option ℕ) (t : Task)
    → (delete_owned_queued_run run_id owner t).0 ≡ ok true
    → HasNone run_id (delete_owned_queued_run run_id owner t).1
unfolding delete_owned_queued_run
delete_owned_queued_run_lem run_id owner t h =
    delete_record_lem 3 delete_queued (is_queued) run_id owner t h

pub await_events_runs :
    {A : Type 0} (method : ℕ → events.Store A) (t : Task)
    → (await (ask_events method) t).1.runner.run_store ≡ t.runner.run_store
unfolding await ask_events
await_events_runs method t = refl

event_generation_runs :
    (n : ℕ) (run_id : String) (owner : Option ℕ) (t : Task)
    → (event_generation_after_failure n run_id owner t).1.runner.run_store ≡ t.runner.run_store
unfolding event_generation_after_failure coordination_failure raise_if_pending enter_fail_stop
    if_missing
event_generation_runs zero run_id owner t = ground arith
event_generation_runs (suc n) run_id owner t =
    let t1 = (await (ask_events (λ now. high_water_mark run_id owner)) t).1 in
    ground (
      arith,
      await_events_runs (λ now. high_water_mark run_id owner) t,
      event_generation_runs n run_id owner t1,
    )

rollback_record_lem :
    (run_id : String) (owner : Option ℕ) (t : Task)
    → (rollback_record run_id owner t).0 ≡ ok tt
    → HasNone run_id (rollback_record run_id owner t).1
unfolding rollback_record coordination_failure raise_if_pending enter_fail_stop if_missing
rollback_record_lem run_id owner t h =
    let first = delete_owned_queued_run run_id owner t in
    let second = event_generation_after_failure 3 run_id owner first.1 in
    let gone = delete_owned_queued_run_lem run_id owner t in
    let kept = event_generation_runs 3 run_id owner first.1 in
    elim (Result-cases second.0) [
      | inr (x, raised) ↦ absurd (ground arith)
      | inl (missing, found) ↦ ground arith
      | inl (owned, found) ↦ absurd (ground arith)
      | inl (foreign, found) ↦ absurd (ground arith)
    ]

pub rollback_submission_lem :
    (is_owned : Bool) (run_id : String) (owner : Option ℕ) (t : Task)
    → (rollback_submission is_owned run_id owner t).0 ≡ ok tt
    → HasNone run_id (rollback_submission is_owned run_id owner t).1
unfolding rollback_submission coordination_failure raise_if_pending enter_fail_stop if_missing
rollback_submission_lem false run_id owner t h =
    ground (arith, delete_owned_queued_run_lem run_id owner t)
rollback_submission_lem true run_id owner t h =
    let first = delete_events 3 true run_id owner t in
    ground (arith, rollback_record_lem run_id owner first.1)
