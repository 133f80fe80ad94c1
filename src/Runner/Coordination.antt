-- ===== src/Runner/Coordination.antt =====
-- `_DelayedCancellation` of runtime/runs.py and the methods of `AnalysisRunner` that look at the stores
-- after a failure. A cancellation of the task reaches it in a call that it interrupts, and the task
-- stays cancelling, so the pending cancellation of every `_DelayedCancellation` is that of the task.
use governed_analytics_agent.Common.{
  ℕ, zero, suc, String, Bool, true, false, ◌||◌, Option, none, some, Result, ok, err, Action, pure,
  ◌>>=◌, if◌then◌else◌,
}
use governed_analytics_agent.Contracts.Plan.{is_some}
use governed_analytics_agent.Events.Store.{StoreError, high_water_mark, delete_run}
use governed_analytics_agent.Runner.Execution.{enter_fail_stop}
use governed_analytics_agent.Runner.Ports.{
  Runner, RunnerError, run_consistency, task_cancelled, Run, Answer, answered, refused, cut,
  ask_events, ask_runs,
}
use governed_analytics_agent.Runs.{RunError, Store, get_run, delete_queued, delete_terminal}
use governed_analytics_agent.Runs.Record.{RunRecord, is_queued, is_terminal}

pub record Task : Type 0 where
  pub runner : Runner
  pub cancelling : Bool

abbrev pub Work : Type 0 → Type 0
Work A = Action Task RunnerError A

abbrev is_cut : {E A : Type 0} → Result RunnerError (Answer E A) → Bool
is_cut (ok cut) = true
is_cut _ = false

-- `await_dependency`
unfoldable pub await : {E A : Type 0} → Run (Answer E A) → Work (Answer E A)
await call t =
    let (answer, r) = call t.runner in
    (answer, record { runner = r; cancelling = t.cancelling || is_cut answer })

unfoldable pub raise_if_pending : Work (Unit {0})
raise_if_pending t = (if t.cancelling then err task_cancelled else ok tt, t)

-- `_raise_coordination_failure`
unfoldable pub coordination_failure : {A : Type 0} → Option String → Work A
unfolding enter_fail_stop
coordination_failure run_id t = (
  err (if t.cancelling then task_cancelled else run_consistency),
  record t { runner = enter_fail_stop run_id t.runner },
)

-- What a look at the run store says: a record, that there is none, or nothing.
abbrev pub record_of : Answer RunError RunRecord → Option (Option RunRecord)
record_of (answered found) = some (some found)
record_of (refused RunError.run_not_found) = some none
record_of _ = none

-- `_run_record_after_delete`, with so many attempts
unfoldable pub run_record_after_delete : ℕ → String → Option ℕ → Work (Option RunRecord)
run_record_after_delete zero run_id owner = coordination_failure (some run_id)
run_record_after_delete (suc n) run_id owner = do
  answer ← await (ask_runs (λ now. get_run run_id owner))
  let next = run_record_after_delete n run_id owner
  elim (record_of answer) [ some held ↦ pure held | none ↦ next ]

-- The loop of `_delete_owned_queued_run` and of `_delete_terminal_run`: it goes on as long as the
-- record is in the state that the method deletes.
unfoldable pub delete_record :
    ℕ → (String → Option ℕ → Store Bool) → (RunRecord → Bool) → String → Option ℕ → Work Bool
unfolding run_record_after_delete
delete_record zero method deletable run_id owner = pure false
delete_record (suc n) method deletable run_id owner = do
  ignored ← await (ask_runs (λ now. method run_id owner))
  held ← run_record_after_delete 3 run_id owner
  let next = delete_record n method deletable run_id owner
  let stuck : Work Bool = coordination_failure (some run_id)
  elim held [ none ↦ pure true | some found ↦ if deletable found then next else stuck ]

unfoldable pub delete_owned_queued_run : String → Option ℕ → Work Bool
unfolding delete_record
delete_owned_queued_run run_id owner = delete_record 3 delete_queued (is_queued) run_id owner

unfoldable pub delete_terminal_run : String → Option ℕ → Work Bool
unfolding delete_record
delete_terminal_run run_id owner = delete_record 3 delete_terminal (is_terminal) run_id owner

pub data Generation : Type 0 where
  owned missing foreign : Generation

abbrev pub generation_of : Answer StoreError ℕ → Option Generation
generation_of (answered high_water) = some owned
generation_of (refused StoreError.run_not_found) = some missing
generation_of (refused StoreError.event_ownership_mismatch) = some foreign
generation_of _ = none

-- `_event_generation_after_failure`
unfoldable pub event_generation_after_failure : ℕ → String → Option ℕ → Work Generation
event_generation_after_failure zero run_id owner = coordination_failure (some run_id)
event_generation_after_failure (suc n) run_id owner = do
  answer ← await (ask_events (λ now. high_water_mark run_id owner))
  let next = event_generation_after_failure n run_id owner
  elim (generation_of answer) [ some generation ↦ pure generation | none ↦ next ]

abbrev pub high_water_of : Answer StoreError ℕ → Option (Option ℕ)
high_water_of (answered high_water) = some (some high_water)
high_water_of (refused StoreError.run_not_found) = some none
high_water_of _ = none

-- `_event_high_water_after_failure`
unfoldable pub event_high_water_after_failure : ℕ → String → Option ℕ → Work (Option ℕ)
event_high_water_after_failure zero run_id owner = coordination_failure (some run_id)
event_high_water_after_failure (suc n) run_id owner = do
  answer ← await (ask_events (λ now. high_water_mark run_id owner))
  let next = event_high_water_after_failure n run_id owner
  elim (high_water_of answer) [ some high_water ↦ pure high_water | none ↦ next ]

-- `_event_exists_after_failure`
unfoldable pub event_exists_after_failure : String → Option ℕ → Work Bool
unfolding event_high_water_after_failure
event_exists_after_failure run_id owner = do
  high_water ← event_high_water_after_failure 3 run_id owner
  pure (is_some high_water)

abbrev pub is_missing : {A : Type 0} → Answer StoreError A → Bool
is_missing (refused StoreError.run_not_found) = true
is_missing _ = false

-- The loop of `_delete_event_for_rollback` and of `_prune_locked` around `delete_run`: whether the
-- history is gone.
unfoldable pub delete_events : ℕ → Bool → String → Option ℕ → Work Bool
unfolding event_exists_after_failure
delete_events zero allow_unstarted run_id owner = pure false
delete_events (suc n) allow_unstarted run_id owner = do
  answer ← await (ask_events (λ now. delete_run run_id allow_unstarted owner))
  let next = delete_events n allow_unstarted run_id owner
  let looked : Work Bool =
      event_exists_after_failure run_id owner >>= λ exists. if exists then next else pure true
  if is_missing answer then pure true else looked
