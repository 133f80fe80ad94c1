-- ===== src/Runner.antt =====
-- `AnalysisRunner` of runtime/runs.py over the two stores.
pub mod Ports
pub mod Reconcile
pub mod Terminal
pub mod Records
pub mod Replies
pub mod Endings
pub mod Untouched
pub mod Execution
pub mod Told
pub mod Outcome
pub mod Steps
pub mod Started
pub mod Progress
pub mod Coordination
pub mod Rollback
pub mod Submission
pub mod Careful
pub mod Withdrawal
pub mod Gone
pub mod Pruned
pub mod Submitted
pub mod Cleaned
pub mod Promise
pub mod Launched
pub mod Ready
mod Tests
mod Trials
