-- ===== src/Runner/Progress.antt =====
-- Where the stores work, an execution comes to its end.
use governed_analytics_agent.Common.{ℕ, ◌≡◌, String, true, false, Option, some, lookup}
use governed_analytics_agent.Runner.Ports.{Runner}
use governed_analytics_agent.Runs.{RunStore, is_foreign}
use governed_analytics_agent.Runs.Record.{RunRecord, is_queued}

-- The record of a run waits for its execution, under its owner.
pub record IsWaiting (run_id : String) (owner : Option ℕ) (s : RunStore) : Type 0 where
  pub found : RunRecord
  pub held : lookup run_id s.records ≡ some found
  pub mine : is_foreign owner (lookup run_id s.owners) ≡ false
  pub queued : is_queued found ≡ true
