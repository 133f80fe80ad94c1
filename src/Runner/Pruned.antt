-- ===== src/Runner/Pruned.antt =====
-- What the pruning of expired runs may raise.
use governed_analytics_agent.Runs.{expired_terminal_ids}
use governed_analytics_agent.Runs as runs
use governed_analytics_agent.Runner.Records.{Result-cases}
use governed_analytics_agent.Runner.Execution.{enter_fail_stop}
use governed_analytics_agent.Runner.Careful.{
  IsCareful, coordination_failure-IsCareful, delete_terminal_run-IsCareful, delete_events-IsCareful,
  event_generation_after_failure-IsCareful, raise_if_pending-IsCareful, IsFair, await_runs_answers,
}
use governed_analytics_agent.Runner.Submission.{prune_or_stop}
use governed_analytics_agent.Runner.Rollback.{
  forget_run, prune_run, prune_all, prune_locked, prune_answered, find_expired,
}
use governed_analytics_agent.Common.{
  ℕ, ◌≡◌, String, false, some, List, [], ◌∷◌, err, arith, inl, inr, ◌⊎◌, lookup, Option-cases,
}
use governed_analytics_agent.Runner.Coordination.{
  Task, await, delete_terminal_run, event_generation_after_failure, delete_events, raise_if_pending,
}
use governed_analytics_agent.Runner.Ports.{
  RunnerError, run_consistency, ask_runs, answered, refused, failed, cut, Answer,
}

forget_run-IsCareful : (run_id : String) (owner : ℕ) → IsCareful (forget_run run_id owner)
unfolding forget_run
forget_run-IsCareful run_id owner t e h =
    let first = delete_terminal_run run_id (some owner) t in
    let second = event_generation_after_failure 3 run_id (some owner) first.1 in
    elim (Result-cases second.0) [
      | inr (x, raised) ↦ ground (
        arith,
        delete_terminal_run-IsCareful run_id (some owner) t e,
        coordination_failure-IsCareful {A = Unit {0}} (some run_id) first.1 e,
        event_generation_after_failure-IsCareful 3 run_id (some owner) first.1 e,
      )
      | inl (generation, found) ↦ ground (
        arith,
        delete_terminal_run-IsCareful run_id (some owner) t e,
        coordination_failure-IsCareful {A = Unit {0}} (some run_id) first.1 e,
        coordination_failure-IsCareful {A = Unit {0}} (some run_id) second.1 e,
      )
    ]

prune_run-IsCareful : (run_id : String) → IsCareful (prune_run run_id)
unfolding prune_run
prune_run-IsCareful run_id t e h = elim (Option-cases (lookup run_id t.runner.ownership_tokens)) [
  | inl unknown ↦ ground (arith, coordination_failure-IsCareful {A = Unit {0}} (some run_id) t e)
  | inr (owner, known) ↦
      let first = delete_events 3 false run_id (some owner) t in
      let second = forget_run run_id owner first.1 in
      ground (
        arith,
        delete_events-IsCareful 3 false run_id (some owner) t e,
        forget_run-IsCareful run_id owner first.1 e,
        raise_if_pending-IsCareful first.1 e,
        raise_if_pending-IsCareful second.1 e,
      )
]

prune_all-IsCareful : (expired : List String) → IsCareful (prune_all expired)
unfolding prune_all
prune_all-IsCareful [] t e h = absurd (ground arith)
prune_all-IsCareful (run_id ∷ expired) t e h =
    let first = prune_run run_id t in
    ground (arith, prune_run-IsCareful run_id t e, prune_all-IsCareful expired first.1 e)

prune_answered_lem :
    (answer : Answer runs.RunError (List String)) (t : Task) (e : RunnerError)
    → (prune_answered answer t).0 ≡ err e
    → IsFair e (prune_answered answer t).1 ⊎ (e ≡ run_consistency)
unfolding prune_answered
prune_answered_lem (answered expired) t e h = inl (prune_all-IsCareful expired t e h)
prune_answered_lem (refused x) t e h = inr (ground arith)
prune_answered_lem failed t e h = inr (ground arith)
prune_answered_lem cut t e h = inr (ground arith)

pub prune_or_stop-IsCareful : IsCareful prune_or_stop
unfolding prune_or_stop prune_locked enter_fail_stop raise_if_pending
prune_or_stop-IsCareful t e h =
    let asked = await (ask_runs find_expired) t in
    elim (Result-cases asked.0) [
      | inr (x, raised) ↦ absurd (await_runs_answers find_expired t x raised)
      | inl (answer, said) ↦ elim (Result-cases (prune_answered answer asked.1).0) [
        | inl (u, done) ↦ ground arith
        | inr (x, raised) ↦ ground (arith, prune_answered_lem answer asked.1 x)
      ]
    ]
