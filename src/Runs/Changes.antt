-- ===== src/Runs/Changes.antt =====
-- What one call of the run store can do to its dicts.
use governed_analytics_agent.Common.{
  ℕ, ◌<◌, ◌≡◌, inl, inr, String, true, false, not, ◌&&◌, Option, none, some, ltb, arith, str_eq,
  lookup, insert, length, is_none, Bool-cases, Option-cases,
}
use governed_analytics_agent.Events.Identifiers.{codes, matches_run_id}
use governed_analytics_agent.Runs.{
  RunStore, is_foreign, require, create, get_run, mark_running, complete, delete_queued,
  delete_terminal, with_record, without,
}
use governed_analytics_agent.Runs.Record.{
  RunRecord, RunResult, queued_record, running_record, terminal_record, is_queued, is_running,
  is_terminal,
}

abbrev pub with_run : String → String → Option ℕ → ℕ → RunStore → RunStore
with_run run_id query owner now s = record s {
  records = insert run_id (queued_record run_id query now) s.records;
  owners = insert run_id owner s.owners;
}

-- The step of one record: from queued to running, or from running to terminal.
pub data Advances (now : ℕ) (r : RunRecord) : RunRecord → Type 0 where
  starts : is_queued r ≡ true → Advances now r (running_record now r)
  ends : is_running r ≡ true → (result : RunResult) → Advances now r (terminal_record now result r)

pub data Change (now : ℕ) (s : RunStore) (s' : RunStore) : Type 0 where
  same : s' ≡ s → Change now s s'
  added :
      (run_id query : String) (owner : Option ℕ)
      → lookup run_id s.records ≡ none
      → length s.records < s.max_runs
      → s' ≡ with_run run_id query owner now s
      → Change now s s'
  updated :
      (run_id : String) (r r' : RunRecord)
      → lookup run_id s.records ≡ some r
      → Advances now r r'
      → s' ≡ with_record run_id r' s
      → Change now s s'
  removed :
      (run_id : String) (r : RunRecord)
      → lookup run_id s.records ≡ some r
      → is_running r ≡ false
      → s' ≡ without run_id s
      → Change now s s'

pub create-Change :
    (now : ℕ) (run_id query : String) (owner : Option ℕ) (s : RunStore)
    → Change now s (create now run_id query owner s).1
unfolding create
create-Change now run_id query owner s =
    elim (Bool-cases (
      matches_run_id (codes run_id)
      && is_none (lookup run_id s.records)
      && ltb (length s.records) s.max_runs)) [
        | inl passes ↦ added run_id query owner (ground arith) (ground arith) (ground arith)
        | inr stops ↦ same (ground arith)
      ]

pub get_run-Change :
    (now : ℕ) (run_id : String) (owner : Option ℕ) (s : RunStore)
    → Change now s (get_run run_id owner s).1
unfolding get_run require
get_run-Change now run_id owner s = elim (Option-cases (lookup run_id s.records)) [
  | inl missing ↦ same (ground arith)
  | inr (r, found) ↦ same (ground arith)
]

pub mark_running-Change :
    (now : ℕ) (run_id : String) (owner : Option ℕ) (s : RunStore)
    → Change now s (mark_running now run_id owner s).1
unfolding mark_running require
mark_running-Change now run_id owner s = elim (Option-cases (lookup run_id s.records)) [
  | inl missing ↦ same (ground arith)
  | inr (r, found) ↦
      elim (Bool-cases (not (is_foreign owner (lookup run_id s.owners)) && is_queued r)) [
        | inl passes ↦
            updated run_id r (running_record now r) found (starts (ground arith)) (ground arith)
        | inr stops ↦ same (ground arith)
      ]
]

pub complete-Change :
    (now : ℕ) (run_id : String) (result : RunResult) (owner : Option ℕ) (s : RunStore)
    → Change now s (complete now run_id result owner s).1
unfolding complete require
complete-Change now run_id result owner s = elim (Option-cases (lookup run_id s.records)) [
  | inl missing ↦ same (ground arith)
  | inr (r, found) ↦
      elim (Bool-cases (
        str_eq result.run_id run_id
        && not (is_foreign owner (lookup run_id s.owners))
        && is_running r)) [
          | inl passes ↦
              updated run_id r (terminal_record now result r) found (ends (ground arith) result)
                (ground arith)
          | inr stops ↦ same (ground arith)
        ]
]

pub delete_queued-Change :
    (now : ℕ) (run_id : String) (owner : Option ℕ) (s : RunStore)
    → Change now s (delete_queued run_id owner s).1
unfolding delete_queued require
delete_queued-Change now run_id owner s = elim (Option-cases (lookup run_id s.records)) [
  | inl missing ↦ same (ground arith)
  | inr (r, found) ↦
      elim (Bool-cases (not (is_foreign owner (lookup run_id s.owners)) && is_queued r)) [
        | inl passes ↦ removed run_id r found (ground arith) (ground arith)
        | inr stops ↦ same (ground arith)
      ]
]

pub delete_terminal-Change :
    (now : ℕ) (run_id : String) (owner : Option ℕ) (s : RunStore)
    → Change now s (delete_terminal run_id owner s).1
unfolding delete_terminal require
delete_terminal-Change now run_id owner s = elim (Option-cases (lookup run_id s.records)) [
  | inl missing ↦ same (ground arith)
  | inr (r, found) ↦
      elim (Bool-cases (not (is_foreign owner (lookup run_id s.owners)) && is_terminal r)) [
        | inl passes ↦ removed run_id r found (ground arith) (ground arith)
        | inr stops ↦ same (ground arith)
      ]
]
