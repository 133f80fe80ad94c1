-- ===== src/Runner/Submitted.antt =====
-- How a submission fails: nothing is left of the run, or the runner has stopped.
use governed_analytics_agent.Events.Record.{RunEvent}
use governed_analytics_agent.Runs.Record.{RunRecord}
use governed_analytics_agent.Events.Store.{create_run, emit}
use governed_analytics_agent.Runner.Withdrawal.{rollback_submission-IsCareful}
use governed_analytics_agent.Runner.Records.{Result-cases}
use governed_analytics_agent.Runner.Rollback.{rollback_submission, queued_data}
use governed_analytics_agent.Runner.Submission.{
  withdraw, stop_at_foreign, undo_at, undo, launch, launch_unless_stopped, begin_history,
}
use governed_analytics_agent.Runner.Careful.{
  IsFair, IsCareful, delete_owned_queued_run-IsCareful, event_generation_after_failure-IsCareful,
  coordination_failure-IsCareful, await_events-IsCareful,
}
use governed_analytics_agent.Runner.Gone.{HasNone, rollback_submission_lem}
use governed_analytics_agent.Common.{
  ℕ, ◌≡◌, String, Bool, true, false, Option, some, err, arith, inl, inr, ◌⊎◌, ◌>>=◌, Bool-cases,
}
use governed_analytics_agent.Runner.Coordination.{
  Task, Work, await, missing, owned, foreign, delete_owned_queued_run, Generation,
  event_generation_after_failure,
}
use governed_analytics_agent.Runner.Ports.{
  RunnerError, ask_events, run_consistency, run_submission_failed,
}
use governed_analytics_agent.Events.Store as events

-- What a failed submission owes its caller: with `RunSubmissionFailed` that the run store has no record
-- of the run, with `RunConsistencyError` that the runner has stopped, or that there is no record either.
abbrev pub Owes : String → RunnerError → Task → Type 0
Owes run_id run_submission_failed t = HasNone run_id t
Owes run_id run_consistency t = (t.runner.consistency_failed ≡ true) ⊎ HasNone run_id t
Owes run_id _ t = Unit

fair-Owes : (run_id : String) (e : RunnerError) (t : Task) → IsFair e t → Owes run_id e t
fair-Owes run_id e t (inl h) = rw h tt
fair-Owes run_id e t (inr (h, stopped)) = rw h (inl stopped)

abbrev pub IsHonest : {A : Type 0} → String → Work A → Type 0
IsHonest run_id m = (t : Task) (e : RunnerError) → (m t).0 ≡ err e → Owes run_id e (m t).1

pub IsCareful-IsHonest :
    {A : Type 0} (run_id : String) (m : Work A) → IsCareful m → IsHonest run_id m
IsCareful-IsHonest run_id m h t e raised = fair-Owes run_id e (m t).1 (h t e raised)

-- A rollback before a raise of `RunSubmissionFailed`.
rolled_back-IsHonest :
    (is_owned : Bool) (run_id : String) (owner : Option ℕ)
    → IsHonest run_id (withdraw is_owned run_id owner)
unfolding withdraw
rolled_back-IsHonest is_owned run_id owner t e h =
    let back = rollback_submission is_owned run_id owner t in
    elim (Result-cases back.0) [
      | inr (x, raised) ↦
          let same : x ≡ e = ground arith in
          let next : (withdraw is_owned run_id owner t).1 ≡ back.1 = ground arith in
          rw next (
            IsCareful-IsHonest run_id (rollback_submission is_owned run_id owner)
              (rollback_submission-IsCareful is_owned run_id owner) t e (rw same at raised))
      | inl (u, done) ↦
          let same : e ≡ run_submission_failed = ground arith in
          let next : (withdraw is_owned run_id owner t).1 ≡ back.1 = ground arith in
          rw (same, next) (rollback_submission_lem is_owned run_id owner t done)
    ]

-- Work that hands its state on.
pub bind-IsHonest :
    {A B : Type 0} (run_id : String) (m : Work A) (k : A → Work B)
    → IsHonest run_id m
    → ((a : A) → IsHonest run_id (k a))
    → IsHonest run_id (m >>= k)
bind-IsHonest run_id m k hm hk t e h = elim (Result-cases (m t).0) [
  | inl (a, done) ↦
      let next : (m >>= k) t ≡ k a (m t).1 = ground arith in rw next (hk a (m t).1 e (rw next at h))
  | inr (x, raised) ↦
      let same : (m >>= k) t ≡ (err x, (m t).1) = ground arith in
      let one : x ≡ e = ground arith in rw same (hm t e (rw one at raised))
]

stop_at_foreign-IsCareful :
    (run_id : String) (owner : Option ℕ) → IsCareful (stop_at_foreign run_id owner)
unfolding stop_at_foreign
stop_at_foreign-IsCareful run_id owner t e h =
    let first = delete_owned_queued_run run_id owner t in
    ground (
      arith,
      delete_owned_queued_run-IsCareful run_id owner t e,
      coordination_failure-IsCareful {A = RunRecord} (some run_id) first.1 e,
    )

at_generation :
    (generation : Generation) (run_id : String) (owner : Option ℕ)
    → IsHonest run_id (undo_at generation run_id owner)
unfolding undo_at
at_generation owned run_id owner = rolled_back-IsHonest true run_id owner
at_generation missing run_id owner = rolled_back-IsHonest false run_id owner
at_generation foreign run_id owner =
    IsCareful-IsHonest run_id (stop_at_foreign run_id owner)
      (stop_at_foreign-IsCareful run_id owner)

pub undo-IsHonest :
    (existed_before is_owned : Bool) (run_id : String) (owner : Option ℕ)
    → IsHonest run_id (undo existed_before is_owned run_id owner)
unfolding undo
undo-IsHonest existed_before true run_id owner = rolled_back-IsHonest true run_id owner
undo-IsHonest true false run_id owner = rolled_back-IsHonest false run_id owner
undo-IsHonest false false run_id owner =
    bind-IsHonest run_id (event_generation_after_failure 3 run_id owner)
      (λ generation. undo_at generation run_id owner)
      (IsCareful-IsHonest run_id (event_generation_after_failure 3 run_id owner)
        (event_generation_after_failure-IsCareful 3 run_id owner))
      (λ generation. at_generation generation run_id owner)

launch-IsHonest :
    (launched : Bool) (run_id : String) (owner : ℕ) (found : RunRecord)
    → IsHonest run_id (launch launched run_id owner found)
unfolding launch
launch-IsHonest false run_id owner found t e h = rolled_back-IsHonest true run_id (some owner) t e h
launch-IsHonest true run_id owner found t e h = absurd (ground arith)

pub launch_unless_stopped-IsHonest :
    (launched : Bool) (run_id : String) (owner : ℕ) (found : RunRecord)
    → IsHonest run_id (launch_unless_stopped launched run_id owner found)
unfolding launch_unless_stopped
launch_unless_stopped-IsHonest launched run_id owner found t e h =
    elim (Bool-cases t.runner.consistency_failed) [
      | inr going ↦
          let next : launch_unless_stopped launched run_id owner found t
              ≡ launch launched run_id owner found t =
            ground arith in
          rw next (launch-IsHonest launched run_id owner found t e (rw next at h))
      | inl stopped ↦
          let back = rollback_submission true run_id (some owner) t in
          elim (Result-cases back.0) [
            | inr (x, raised) ↦
                let same : x ≡ e = ground arith in
                let next : (launch_unless_stopped launched run_id owner found t).1 ≡ back.1 =
                  ground arith in
                rw next (
                  IsCareful-IsHonest run_id (rollback_submission true run_id (some owner))
                    (rollback_submission-IsCareful true run_id (some owner)) t e
                    (rw same at raised))
            | inl (u, done) ↦
                let same : e ≡ run_consistency = ground arith in
                let next : (launch_unless_stopped launched run_id owner found t).1 ≡ back.1 =
                  ground arith in
                rw (same, next) (inr (rollback_submission_lem true run_id (some owner) t done))
          ]
    ]

pub begin_history-IsCareful :
    (run_id : String) (owner : Option ℕ) → IsCareful (begin_history run_id owner)
unfolding begin_history
begin_history-IsCareful run_id owner t e h =
    let t1 = (await (ask_events (λ now. create_run run_id owner)) t).1 in
    let method : ℕ → events.Store RunEvent =
      λ now. emit now run_id "runtime" "run.created" queued_data owner in
    ground (
      arith,
      await_events-IsCareful (λ now. create_run run_id owner) t e,
      await_events-IsCareful method t1 e,
    )
