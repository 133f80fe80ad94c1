-- ===== src/Runner/Reconcile.antt =====
-- `_read_run_for_reconciliation`, `_ensure_running` and `_ensure_run_terminal` of `AnalysisRunner`.
use governed_analytics_agent.Common.{
  ℕ, zero, suc, String, Bool, ◌&&◌, Option, raise, pure, ◌>>=◌, if◌then◌else◌,
}
use governed_analytics_agent.Runner.Ports.{
  run_consistency, task_cancelled, Run, Answer, answered, cut, ask_runs,
}
use governed_analytics_agent.Runs.{RunError, Store, get_run, mark_running, complete}
use governed_analytics_agent.Runs.Record.{
  RunRecord, RunResult, is_queued, is_running, is_terminal, matches_result,
}

-- What `_read_run_for_reconciliation` makes of the store's answer.
abbrev pub or_inconsistent : Answer RunError RunRecord → Run RunRecord
or_inconsistent (answered found) = pure found
or_inconsistent cut = raise task_cancelled
or_inconsistent _ = raise run_consistency

unfoldable pub read_run_for_reconciliation : String → Option ℕ → Run RunRecord
read_run_for_reconciliation run_id owner = do
  answer ← ask_runs (λ now. get_run run_id owner)
  or_inconsistent answer

-- The `try` of the two loops: the record that the call returns, and after an exception the one that
-- the store holds.
abbrev pub or_read : String → Option ℕ → Answer RunError RunRecord → Run RunRecord
or_read run_id owner (answered found) = pure found
or_read run_id owner cut = raise task_cancelled
or_read run_id owner _ = read_run_for_reconciliation run_id owner

unfoldable pub reconciled : (ℕ → Store RunRecord) → String → Option ℕ → Run RunRecord
unfolding read_run_for_reconciliation
reconciled method run_id owner = do answer ← ask_runs method; or_read run_id owner answer

-- The loop of `_ensure_running` and of `_ensure_run_terminal`, for so many rounds: it returns at a
-- record that is `done`, and goes on only at one that asks for another round.
unfoldable pub reconcile :
    ℕ
    → (ℕ → Store RunRecord)
    → String
    → Option ℕ
    → (RunRecord → Bool)
    → (RunRecord → Bool)
    → Run (Unit {0})
unfolding reconciled
reconcile zero method run_id owner done again = raise run_consistency
reconcile (suc rounds) method run_id owner done again = do
  found ← reconciled method run_id owner
  let next = reconcile rounds method run_id owner done again
  if done found then pure tt else if again found then next else raise run_consistency

unfoldable pub ensure_running : String → Option ℕ → Run (Unit {0})
unfolding reconcile
ensure_running run_id owner =
    reconcile 3 (λ now. mark_running now run_id owner) run_id owner (is_running) (is_queued)

abbrev pub is_complete : RunResult → RunRecord → Bool
is_complete result found = is_terminal found && matches_result found result

unfoldable pub ensure_run_terminal : String → RunResult → Option ℕ → Run (Unit {0})
unfolding reconcile
ensure_run_terminal run_id result owner =
    reconcile 3 (λ now. complete now run_id result owner) run_id owner (is_complete result)
      (is_running)
