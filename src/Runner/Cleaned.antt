-- ===== src/Runner/Cleaned.antt =====
-- The failures of a submission before its history is begun.
use governed_analytics_agent.Runs.{RunError, create}
use governed_analytics_agent.Runs.Record.{RunRecord}
use governed_analytics_agent.Runner.Records.{Result-cases}
use governed_analytics_agent.Runner.Submission.{
  clean_end_of, delete_unless_gone, clean_created, keep_created, raise_refused, after_create,
  create_record, after_look, event_existed, submission_error, event_exists_before_submission,
}
use governed_analytics_agent.Runner.Careful.{
  IsCareful, delete_owned_queued_run-IsCareful, coordination_failure-IsCareful,
  run_record_after_delete-IsCareful, await_runs-IsCareful,
}
use governed_analytics_agent.Runner.Gone.{
  HasNone, delete_owned_queued_run_lem, run_record_after_delete_lem,
}
use governed_analytics_agent.Common.{
  ℕ, ◌≡◌, refl, String, Bool, true, false, Option, none, some, ok, err, arith, inl, inr, Bool-cases,
}
use governed_analytics_agent.Runner.Coordination.{
  Task, await, delete_owned_queued_run, raise_if_pending, run_record_after_delete,
  coordination_failure,
}
use governed_analytics_agent.Runner.Ports.{
  runner_shutdown, dependency_failed, run_store_error, RunnerError, ask_runs, answered, refused,
  failed, cut, Answer, run_consistency, run_submission_failed, task_cancelled, run_store_error,
}
use governed_analytics_agent.Runs as runs
use governed_analytics_agent.Runner.Submitted.{Owes, IsHonest, IsCareful-IsHonest, bind-IsHonest}

-- The end of a clean-up, once the record is known to be gone or not.
clean_end :
    {A : Type 0} (gone : Bool) (run_id : String) (t : Task) (e : RunnerError)
    → (gone ≡ true → HasNone run_id t)
    → (clean_end_of {A = A} gone t).0 ≡ err e
    → Owes run_id e (clean_end_of {A = A} gone t).1
unfolding clean_end_of raise_if_pending
clean_end {A = A} false run_id t e none_left h =
    IsCareful-IsHonest run_id (coordination_failure {A = A} none)
      (coordination_failure-IsCareful none) t e h
clean_end {A = A} true run_id t e none_left h = elim (Bool-cases t.cancelling) [
  | inl late ↦ let same : e ≡ task_cancelled = ground arith in rw same tt
  | inr early ↦
      let same : e ≡ run_submission_failed = ground arith in
      let next : (clean_end_of {A = A} true t).1 ≡ t = ground arith in
      rw (same, next) (none_left refl)
]

delete_unless_gone_lem :
    (held : Option RunRecord) (run_id : String) (owner : Option ℕ) (t : Task)
    → (held ≡ none → HasNone run_id t)
    → (delete_unless_gone held run_id owner t).0 ≡ ok true
    → HasNone run_id (delete_unless_gone held run_id owner t).1
unfolding delete_unless_gone
delete_unless_gone_lem none run_id owner t none_left h = none_left refl
delete_unless_gone_lem (some found) run_id owner t none_left h =
    delete_owned_queued_run_lem run_id owner t h

delete_unless_gone-IsCareful :
    (held : Option RunRecord) (run_id : String) (owner : Option ℕ)
    → IsCareful (delete_unless_gone held run_id owner)
unfolding delete_unless_gone
delete_unless_gone-IsCareful none run_id owner t e h = absurd (ground arith)
delete_unless_gone-IsCareful (some found) run_id owner t e h =
    delete_owned_queued_run-IsCareful run_id owner t e h

clean_created-IsHonest :
    {A : Type 0} (run_id : String) (owner : Option ℕ)
    → IsHonest run_id (clean_created {A = A} run_id owner)
unfolding clean_created
clean_created-IsHonest {A = A} run_id owner t e h =
    let first = run_record_after_delete 3 run_id owner t in
    elim (Result-cases first.0) [
      | inr (x, raised) ↦
          let same : x ≡ e = ground arith in
          let next : (clean_created {A = A} run_id owner t).1 ≡ first.1 = ground arith in
          rw next (
            IsCareful-IsHonest run_id (run_record_after_delete 3 run_id owner)
              (run_record_after_delete-IsCareful 3 run_id owner) t e (rw same at raised))
      | inl (held, looked) ↦
          let second = delete_unless_gone held run_id owner first.1 in
          elim (Result-cases second.0) [
            | inr (x, raised) ↦
                let same : x ≡ e = ground arith in
                let next : (clean_created {A = A} run_id owner t).1 ≡ second.1 = ground arith in
                rw next (
                  IsCareful-IsHonest run_id (delete_unless_gone held run_id owner)
                    (delete_unless_gone-IsCareful held run_id owner) first.1 e (rw same at raised))
            | inl (gone, done) ↦
                let next : clean_created {A = A} run_id owner t
                    ≡ clean_end_of {A = A} gone second.1 =
                  ground arith in
                rw next (
                  clean_end {A = A} gone run_id second.1 e
                    (λ g.
                      delete_unless_gone_lem held run_id owner first.1
                        (λ n. run_record_after_delete_lem 3 run_id owner t (rw n at looked))
                        (rw g at done))
                    (rw next at h))
          ]
    ]

created-IsHonest :
    (found : RunRecord) (run_id : String) (owner : Option ℕ)
    → IsHonest run_id (keep_created found run_id owner)
unfolding keep_created raise_if_pending
created-IsHonest found run_id owner t e h = elim (Bool-cases t.cancelling) [
  | inr early ↦ absurd (ground arith)
  | inl late ↦
      let next : keep_created found run_id owner t ≡ clean_created {A = RunRecord} run_id owner t =
        ground arith in
      rw next (clean_created-IsHonest {A = RunRecord} run_id owner t e (rw next at h))
]

refused_lem : (x : RunError) (run_id : String) → IsHonest run_id (raise_refused x)
unfolding raise_refused raise_if_pending
refused_lem x run_id t e h = elim (Bool-cases t.cancelling) [
  | inl late ↦ let same : e ≡ task_cancelled = ground arith in rw same tt
  | inr early ↦ let same : e ≡ run_store_error x = ground arith in rw same tt
]

creation_lem :
    (answer : Answer RunError RunRecord) (run_id : String) (owner : Option ℕ)
    → IsHonest run_id (after_create answer run_id owner)
unfolding after_create
creation_lem (answered found) run_id owner = created-IsHonest found run_id owner
creation_lem (refused RunError.run_already_exists) run_id owner =
    refused_lem RunError.run_already_exists run_id
creation_lem (refused RunError.run_capacity_exceeded) run_id owner =
    refused_lem RunError.run_capacity_exceeded run_id
creation_lem (refused RunError.run_not_found) run_id owner = clean_created-IsHonest run_id owner
creation_lem (refused RunError.run_state_conflict) run_id owner =
    clean_created-IsHonest run_id owner
creation_lem (refused RunError.run_ownership_mismatch) run_id owner =
    clean_created-IsHonest run_id owner
creation_lem (refused RunError.invalid_record) run_id owner = clean_created-IsHonest run_id owner
creation_lem failed run_id owner = clean_created-IsHonest run_id owner
creation_lem cut run_id owner = clean_created-IsHonest run_id owner

pub create_record-IsHonest :
    (run_id query : String) (owner : Option ℕ) → IsHonest run_id (create_record run_id query owner)
unfolding create_record
create_record-IsHonest run_id query owner =
    let method : ℕ → runs.Store RunRecord = λ now. create now run_id query owner in
    bind-IsHonest run_id (await (ask_runs method)) (λ answer. after_create answer run_id owner)
      (IsCareful-IsHonest run_id (await (ask_runs method)) (await_runs-IsCareful method))
      (λ answer. creation_lem answer run_id owner)

-- What `_event_exists_before_submission` raises is handled.
looked_before_lem :
    (x : RunnerError) (gone : Bool) (run_id : String) (t : Task) (e : RunnerError)
    → (gone ≡ true → HasNone run_id t)
    → (after_look x gone t).0 ≡ err e
    → Owes run_id e (after_look x gone t).1
unfolding after_look raise_if_pending
looked_before_lem x false run_id t e none_left h =
    IsCareful-IsHonest run_id (coordination_failure {A = Bool} none)
      (coordination_failure-IsCareful none) t e h
looked_before_lem x true run_id t e none_left h = elim (Bool-cases t.cancelling) [
  | inl late ↦ let same : e ≡ task_cancelled = ground arith in rw same tt
  | inr early ↦
      let next : (after_look x true t).1 ≡ t = ground arith in
      let same : e ≡ submission_error x = ground arith in
      rw (same, next) (owed x run_id t (none_left refl))
]
  where
    owed :
        (x : RunnerError) (run_id : String) (t : Task)
        → HasNone run_id t
        → Owes run_id (submission_error x) t
    owed run_consistency run_id t n = inr n
    owed task_cancelled run_id t n = n
    owed runner_shutdown run_id t n = n
    owed run_submission_failed run_id t n = n
    owed dependency_failed run_id t n = n
    owed (run_store_error y) run_id t n = n

pub event_existed-IsHonest :
    (run_id : String) (owner : Option ℕ) → IsHonest run_id (event_existed run_id owner)
unfolding event_existed
event_existed-IsHonest run_id owner t e h =
    let first = event_exists_before_submission run_id t in
    elim (Result-cases first.0) [
      | inl (existed, said) ↦ absurd (ground arith)
      | inr (x, raised) ↦
          let second = delete_owned_queued_run run_id owner first.1 in
          elim (Result-cases second.0) [
            | inr (y, raised') ↦
                let same : y ≡ e = ground arith in
                let next : (event_existed run_id owner t).1 ≡ second.1 = ground arith in
                rw next (
                  IsCareful-IsHonest run_id (delete_owned_queued_run run_id owner)
                    (delete_owned_queued_run-IsCareful run_id owner) first.1 e (rw same at raised'))
            | inl (gone, done) ↦
                let next : event_existed run_id owner t ≡ after_look x gone second.1 =
                  ground arith in
                rw next (
                  looked_before_lem x gone run_id second.1 e
                    (λ g. delete_owned_queued_run_lem run_id owner first.1 (rw g at done))
                    (rw next at h))
          ]
    ]
