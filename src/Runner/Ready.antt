-- ===== src/Runner/Ready.antt =====
-- A submission that returns leaves a run that waits for its execution.
use governed_analytics_agent.Runner.Records.{Result-cases}
use governed_analytics_agent.Runner.Gone.{await_events_runs}
use governed_analytics_agent.Runner.Rollback.{queued_data}
use governed_analytics_agent.Runner.Launched.{
  withdraw-IsBarren, IsCreated, asked_history, undo-IsBarren, asked_event, event_existed_runs,
  create_record_lem,
}
use governed_analytics_agent.Events.Record.{RunEvent}
use governed_analytics_agent.Runs.Record.{RunRecord}
use governed_analytics_agent.Events.Store.{create_run, emit}
use governed_analytics_agent.Runner.Steps.{IsOpen}
use governed_analytics_agent.Common.{
  ℕ, ◌≡◌, String, Bool, true, false, some, ok, arith, inl, inr, lookup, lookup-insert_self,
  Bool-cases,
}
use governed_analytics_agent.Runner.Coordination.{Task, await}
use governed_analytics_agent.Runner.Ports.{ask_events, answered, refused, failed, cut}
use governed_analytics_agent.Runner.Submission.{
  begun, broken, begin_history, launch_unless_stopped, submit, launch, submit_run, finish,
  prune_or_stop, create_record, event_existed,
}
use governed_analytics_agent.Runs as runs
use governed_analytics_agent.Events.Store as events

begin_history_lem :
    (run_id : String) (owner : ℕ) (t : Task)
    → (begin_history run_id (some owner) t).0 ≡ ok begun
    → IsOpen run_id (some owner) 2 (begin_history run_id (some owner) t).1.runner.event_store
      × ((begin_history run_id (some owner) t).1.runner.run_store ≡ t.runner.run_store)
unfolding begin_history
begin_history_lem run_id owner t h =
    let creation : ℕ → events.Store (Unit {0}) = λ now. create_run run_id (some owner) in
    let emission : ℕ → events.Store RunEvent =
      λ now. emit now run_id "runtime" "run.created" queued_data (some owner) in
    let first = await (ask_events creation) t in
    let second = await (ask_events emission) first.1 in
    let kept = await_events_runs creation t in
    let kept' = await_events_runs emission first.1 in
    elim (Result-cases first.0) [
      | inr (x, raised) ↦ absurd (ground arith)
      | inl (refused x, said) ↦ absurd (ground arith)
      | inl (failed, said) ↦ absurd (ground arith)
      | inl (cut, said) ↦ absurd (ground arith)
      | inl (answered u, said) ↦ elim (Bool-cases first.1.cancelling) [
        | inl late ↦ absurd (ground arith)
        | inr early ↦ elim (Result-cases second.0) [
          | inr (x, raised) ↦ absurd (ground arith)
          | inl (refused x, said') ↦ absurd (ground arith)
          | inl (failed, said') ↦ absurd (ground arith)
          | inl (cut, said') ↦ absurd (ground arith)
          | inl (answered e, said') ↦
              let (safe, held) = asked_history run_id (some owner) t said in
              let next : (begin_history run_id (some owner) t).1 ≡ second.1 = ground arith in
              rw next (asked_event run_id owner first.1 {e = e} safe held said', ground arith)
        ]
      ]
    ]

-- The run is started, and the runner keeps its owner.
launched_lem :
    (launched : Bool) (run_id : String) (owner : ℕ) (made : RunRecord) (t : Task)
    {found : RunRecord}
    → (launch_unless_stopped launched run_id owner made t).0 ≡ ok found
    → (found ≡ made)
      × ((launch_unless_stopped launched run_id owner made t).1.runner.run_store
          ≡ t.runner.run_store)
      × ((launch_unless_stopped launched run_id owner made t).1.runner.event_store
          ≡ t.runner.event_store)
      × (lookup run_id
            (launch_unless_stopped launched run_id owner made t).1.runner.ownership_tokens
          ≡ some owner)
unfolding launch_unless_stopped launch
launched_lem false run_id owner made t {found} h =
    absurd (ground (arith, withdraw-IsBarren true run_id (some owner) t found))
launched_lem true run_id owner made t {found} h = elim (Bool-cases t.runner.consistency_failed) [
  | inl stopped ↦ absurd (ground arith)
  | inr going ↦
      let owner_kept = lookup-insert_self run_id owner t.runner.ownership_tokens in
      let value : made ≡ found = ground arith in
      (ground (arith, value), ground arith, ground arith, ground (arith, owner_kept))
]

-- When `submit` returns, the run store holds the returned record, queued and under the submission's
-- owner, the run's history has begun and is open to that owner, and the runner keeps the owner for the
-- pruning.
pub submit_readies :
    (launched : Bool) (run_id query : String) (owner : ℕ) (t : Task) {found : RunRecord}
    → (submit launched run_id query owner t).0 ≡ ok found
    → IsCreated run_id owner found (submit launched run_id query owner t).1.runner.run_store
      × IsOpen run_id (some owner) 2 (submit launched run_id query owner t).1.runner.event_store
      × (lookup run_id (submit launched run_id query owner t).1.runner.ownership_tokens
          ≡ some owner)
unfolding submit submit_run finish
submit_readies launched run_id query owner t {found} h =
    let t0 = (prune_or_stop t).1 in
    let first = create_record run_id query (some owner) t0 in
    let second = event_existed run_id (some owner) first.1 in
    let third = begin_history run_id (some owner) second.1 in
    elim (Bool-cases t.runner.consistency_failed) [
      | inl stopped ↦ absurd (ground arith)
      | inr going ↦ elim (Bool-cases t.runner.accepting) [
        | inr closed ↦ absurd (ground arith)
        | inl still ↦ elim (Result-cases (prune_or_stop t).0) [
          | inr (x, raised) ↦ absurd (ground arith)
          | inl (u, pruned) ↦ elim (Result-cases first.0) [
            | inr (x, raised) ↦ absurd (ground arith)
            | inl (made, created) ↦ elim (Result-cases second.0) [
              | inr (x, raised) ↦ absurd (ground arith)
              | inl (existed, looked) ↦ elim (Result-cases third.0) [
                | inr (x, raised) ↦ absurd (ground arith)
                | inl (broken is_owned, left) ↦ absurd (
                    ground
                      (arith, undo-IsBarren existed is_owned run_id (some owner) third.1 found))
                | inl (begun, said) ↦
                    let next : submit launched run_id query owner t
                        ≡ launch_unless_stopped launched run_id owner made third.1 =
                      ground arith in
                    let (same, kept, kept_events, token) =
                      launched_lem launched run_id owner made third.1 {found = found}
                        (rw next at h) in
                    let (is_open, kept') = begin_history_lem run_id owner second.1 said in
                    let kept'' =
                      event_existed_runs run_id (some owner) first.1 {existed = existed} looked in
                    let (held, mine, queued) =
                      create_record_lem run_id query owner t0 {found = made} created in
                    rw (next, kept, kept', kept'', kept_events, same)
                      ((held, mine, queued), is_open, token)
              ]
            ]
          ]
        ]
      ]
    ]
