-- ===== src/Runner/Submission.antt =====
-- `submit` of `AnalysisRunner`. The id and the owner's token are fresh arguments, and `launched` tells
-- whether `asyncio.create_task` returns.
use governed_analytics_agent.Common.{
  ℕ, String, Bool, true, false, not, ◌&&◌, Option, none, some, ◌∷◌, ok, err, pure, raise, ◌>>=◌,
  ◌>>◌, if◌then◌else◌, insert,
}
use governed_analytics_agent.Events.Store.{create_run, emit, high_water_mark}
use governed_analytics_agent.Runner.Coordination.{
  Task, Work, await, raise_if_pending, coordination_failure, run_record_after_delete,
  delete_owned_queued_run, owned, missing, foreign, event_generation_after_failure, high_water_of,
  Generation,
}
use governed_analytics_agent.Runner.Execution.{enter_fail_stop}
use governed_analytics_agent.Runner.Ports.{
  RunnerError, run_consistency, runner_shutdown, run_submission_failed, run_store_error, Answer,
  answered, refused, ask_events, ask_runs,
}
use governed_analytics_agent.Runner.Rollback.{queued_data, rollback_submission, prune_locked}
use governed_analytics_agent.Runs.{RunError, create}
use governed_analytics_agent.Runs.Record.{RunRecord}

abbrev pub catch : {A : Type 0} → Work A → (RunnerError → Work A) → Work A
catch work handle t =
    let (result, t') = work t in elim result [ ok a ↦ (ok a, t') | err e ↦ handle e t' ]

-- The fail-stop of the runner, outside a coordination.
abbrev pub stop_runner : Task → Task
stop_runner t = record t { runner = enter_fail_stop none t.runner }

abbrev pub stop_if_inconsistent : {A : Type 0} → RunnerError → Work A
stop_if_inconsistent run_consistency t = (err run_consistency, stop_runner t)
stop_if_inconsistent e t = (err e, t)

-- The pruning that a submission starts with.
unfoldable pub prune_or_stop : Work (Unit {0})
prune_or_stop = catch prune_locked stop_if_inconsistent

-- After an exception of `create`: a record that is the submission's own is deleted.
unfoldable pub delete_unless_gone : Option RunRecord → String → Option ℕ → Work Bool
delete_unless_gone none run_id owner = pure true
delete_unless_gone (some found) run_id owner = delete_owned_queued_run run_id owner

unfoldable pub clean_end_of : {A : Type 0} → Bool → Work A
clean_end_of true = raise_if_pending >> raise run_submission_failed
clean_end_of false = coordination_failure none

unfoldable pub clean_created : {A : Type 0} → String → Option ℕ → Work A
clean_created run_id owner = do
  held ← run_record_after_delete 3 run_id owner
  gone ← delete_unless_gone held run_id owner
  clean_end_of gone

unfoldable pub keep_created : RunRecord → String → Option ℕ → Work RunRecord
keep_created found run_id owner =
    catch (raise_if_pending >> pure found) (λ e. clean_created run_id owner)

unfoldable pub raise_refused : RunError → Work RunRecord
raise_refused e = raise_if_pending >> raise (run_store_error e)

unfoldable pub after_create : Answer RunError RunRecord → String → Option ℕ → Work RunRecord
after_create (answered found) run_id owner = keep_created found run_id owner
after_create (refused RunError.run_already_exists) run_id owner =
    raise_refused RunError.run_already_exists
after_create (refused RunError.run_capacity_exceeded) run_id owner =
    raise_refused RunError.run_capacity_exceeded
after_create _ run_id owner = clean_created run_id owner

-- The creation of the record, in `submit`.
unfoldable pub create_record : String → String → Option ℕ → Work RunRecord
create_record run_id query owner = do
  answer ← await (ask_runs (λ now. create now run_id query owner))
  after_create answer run_id owner

-- `_event_exists_before_submission`
unfoldable pub event_exists_before_submission : String → Work Bool
event_exists_before_submission run_id = do
  answer ← await (ask_events (λ now. high_water_mark run_id none))
  raise_if_pending
  elim (high_water_of answer) [
    | some (some high_water) ↦ pure true
    | some none ↦ pure false
    | none ↦ λ t. (err run_consistency, stop_runner t)
  ]

abbrev pub submission_error : RunnerError → RunnerError
submission_error run_consistency = run_consistency
submission_error _ = run_submission_failed

unfoldable pub after_look : RunnerError → Bool → Work Bool
after_look e true = raise_if_pending >> raise (submission_error e)
after_look e false = coordination_failure none

-- The look at the history before the submission, with its exceptions, in `submit`.
unfoldable pub event_existed : String → Option ℕ → Work Bool
event_existed run_id owner =
    catch (event_exists_before_submission run_id)
      (λ e. delete_owned_queued_run run_id owner >>= λ gone. after_look e gone)

-- How the creation of the history ends: with the run's first event, or in an exception, where the
-- history may be the submission's own.
pub data Begun : Type 0 where
  begun : Begun
  broken : Bool → Begun

abbrev pub pending : Work Bool
pending t = (ok t.cancelling, t)

abbrev pub is_answered : {E A : Type 0} → Answer E A → Bool
is_answered (answered a) = true
is_answered _ = false

unfoldable pub begin_history : String → Option ℕ → Work Begun
begin_history run_id owner = do
  created ← await (ask_events (λ now. create_run run_id owner))
  cancelled ← pending
  let emitted : Work Begun =
      await (ask_events (λ now. emit now run_id "runtime" "run.created" queued_data owner))
      >>= λ event.
          pending >>= λ late. pure (if is_answered event && not late then begun else broken true)
  let created_history : Work Begun = if cancelled then pure (broken true) else emitted
  if is_answered created then created_history else pure (broken false)

-- A rollback, before `RunSubmissionFailed` is raised.
unfoldable pub withdraw : Bool → String → Option ℕ → Work RunRecord
withdraw is_owned run_id owner =
    rollback_submission is_owned run_id owner >> raise run_submission_failed

-- The generation that is foreign: the record is deleted, and the runner stops.
unfoldable pub stop_at_foreign : String → Option ℕ → Work RunRecord
stop_at_foreign run_id owner = do
  gone ← delete_owned_queued_run run_id owner
  coordination_failure (some run_id)

unfoldable pub undo_at : Generation → String → Option ℕ → Work RunRecord
undo_at owned run_id owner = withdraw true run_id owner
undo_at missing run_id owner = withdraw false run_id owner
undo_at foreign run_id owner = stop_at_foreign run_id owner

-- The exception of a history that was not begun: whether there was a history before, and whether the
-- submission owns the history.
unfoldable pub undo : Bool → Bool → String → Option ℕ → Work RunRecord
undo existed_before true run_id owner = withdraw true run_id owner
undo true false run_id owner = withdraw false run_id owner
undo false false run_id owner = do
  generation ← event_generation_after_failure 3 run_id owner
  undo_at generation run_id owner

-- The task of the run is created.
unfoldable pub launch : Bool → String → ℕ → RunRecord → Work RunRecord
launch false run_id owner found t = withdraw true run_id (some owner) t
launch true run_id owner found t = (
  ok found,
  record t {
    runner = record t.runner {
      ownership_tokens = insert run_id owner t.runner.ownership_tokens;
      tasks = run_id ∷ t.runner.tasks;
    };
  },
)

-- After the history: the look at the fail-stop.
unfoldable pub launch_unless_stopped : Bool → String → ℕ → RunRecord → Work RunRecord
launch_unless_stopped launched run_id owner found t =
    let stopped : Work RunRecord =
      rollback_submission true run_id (some owner) >> raise run_consistency in
    (if t.runner.consistency_failed then stopped else launch launched run_id owner found) t

unfoldable pub finish : Bool → Bool → Begun → String → ℕ → RunRecord → Work RunRecord
finish launched existed begun run_id owner found = launch_unless_stopped launched run_id owner found
finish launched existed (broken is_owned) run_id owner found =
    undo existed is_owned run_id (some owner)

-- `submit` from the new id on
unfoldable pub submit_run : Bool → String → String → ℕ → Work RunRecord
submit_run launched run_id query owner = do
  found ← create_record run_id query (some owner)
  existed ← event_existed run_id (some owner)
  history ← begin_history run_id (some owner)
  finish launched existed history run_id owner found

unfoldable pub submit : Bool → String → String → ℕ → Work RunRecord
submit launched run_id query owner t =
    let accepted : Work RunRecord = prune_or_stop >> submit_run launched run_id query owner in
    (if t.runner.consistency_failed
        then raise run_consistency
        else if t.runner.accepting
        then accepted
        else raise runner_shutdown)
      t
