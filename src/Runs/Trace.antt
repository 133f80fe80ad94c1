-- ===== src/Runs/Trace.antt =====
-- Every run store that calls can lead to, what a call can do to a record, and the repeated completion.
use governed_analytics_agent.Common.{
  ℕ, ◌≤◌, ◌≡◌, ◌⊎◌, inl, inr, refl, String, true, false, Option, none, some, arith, str_eq, lookup,
  Option-cases, ok,
}
use governed_analytics_agent.Agent.Assessment.{verified_of}
use governed_analytics_agent.Contracts.Enums.{final_status_value, stop_reason_value}
use governed_analytics_agent.Contracts.Reflexive.{
  str_eq_refl, same_texts_refl, same_trace_refl, same_evidence_refl, same_governance_refl,
}
use governed_analytics_agent.Contracts.Trace.{same_list_refl, same_evidence}
use governed_analytics_agent.Runs.{
  RunStore, new_store, is_foreign, require, create, get_run, mark_running, complete, delete_queued,
  delete_terminal,
}
use governed_analytics_agent.Runs.Changes.{Advances}
use governed_analytics_agent.Runs.Record.{
  RunRecord, RunResult, terminal_record, with_result, same_output, matches_result, is_running,
  is_terminal,
}

pub data Call : Type 0 where
  creates : String → String → Option ℕ → Call
  gets : String → Option ℕ → Call
  marks : String → Option ℕ → Call
  completes : String → RunResult → Option ℕ → Call
  drops_queued : String → Option ℕ → Call
  drops_terminal : String → Option ℕ → Call

-- The store after the method that a call names.
unfoldable pub apply : ℕ → Call → RunStore → RunStore
apply now (creates run_id query owner) s = (create now run_id query owner s).1
apply now (gets run_id owner) s = (get_run run_id owner s).1
apply now (marks run_id owner) s = (mark_running now run_id owner s).1
apply now (completes run_id result owner) s = (complete now run_id result owner s).1
apply now (drops_queued run_id owner) s = (delete_queued run_id owner s).1
apply now (drops_terminal run_id owner) s = (delete_terminal run_id owner s).1

-- The stores at the time of the last call, if the clock does not go back.
pub data Reach (max_runs retention : ℕ) : ℕ → RunStore → Type 0 where
  start : Reach max_runs retention 0 (new_store max_runs retention)
  next :
      {t : ℕ} {s : RunStore}
      → Reach max_runs retention t s
      → (now : ℕ) → t ≤ now
      → (c : Call) → Reach max_runs retention now (apply now c s)

-- What becomes of a record: it may be gone unless it ran, and else it is kept or goes one step on.
abbrev pub Evolves : ℕ → RunRecord → Option RunRecord → Type 0
Evolves now r none = is_running r ≡ false
Evolves now r (some r') = (r' ≡ r) ⊎ Advances now r r'

pub matches_result_same :
    (now : ℕ) (result : RunResult) (r : RunRecord)
    → matches_result (terminal_record now result r) result ≡ true
unfolding matches_result terminal_record with_result same_output
matches_result_same now result r = ground (
  arith,
  str_eq_refl (final_status_value result.final_answer.status),
  str_eq_refl result.final_answer.answer,
  same_list_refl (same_evidence) same_evidence_refl (verified_of result.evidence),
  same_texts_refl result.final_answer.limitations,
  same_texts_refl result.evidence_gaps,
  same_governance_refl result.governance,
  str_eq_refl (stop_reason_value result.final_answer.stop_reason),
  same_trace_refl result.safe_trace,
)

pub is_terminal-terminal_record :
    (now : ℕ) (result : RunResult) (r : RunRecord)
    → is_terminal (terminal_record now result r) ≡ true
unfolding terminal_record with_result
is_terminal-terminal_record now result r = refl

completed_missing :
    (now : ℕ) (run_id : String) (result : RunResult) (owner : Option ℕ) (s : RunStore)
    (r : RunRecord)
    → lookup run_id s.records ≡ none
    → (complete now run_id result owner s).0 ≡ ok r
    → ⊥
unfolding complete require
completed_missing now run_id result owner s r missing h = ground arith

abbrev Matches : String → RunResult → RunRecord → Type 0
Matches run_id result r =
    (is_terminal r ≡ true) × (matches_result r result ≡ true) × (str_eq result.run_id run_id ≡ true)

completed_found :
    (now : ℕ) (run_id : String) (result : RunResult) (owner : Option ℕ) (s : RunStore)
    (q r : RunRecord)
    → lookup run_id s.records ≡ some q
    → is_terminal (terminal_record now result q) ≡ true
    → matches_result (terminal_record now result q) result ≡ true
    → (complete now run_id result owner s).0 ≡ ok r
    → Matches run_id result r
unfolding complete require
completed_found now run_id result owner s q r found t m h = ground arith

-- What a completion returns is terminal and matches its result.
completed-Matches :
    (now : ℕ) (run_id : String) (result : RunResult) (owner : Option ℕ) (s : RunStore)
    (r : RunRecord)
    → (complete now run_id result owner s).0 ≡ ok r
    → Matches run_id result r
completed-Matches now run_id result owner s r h = elim (Option-cases (lookup run_id s.records)) [
  | inl missing ↦ absurd (completed_missing now run_id result owner s r missing h)
  | inr (q, found) ↦
      completed_found now run_id result owner s q r found (is_terminal-terminal_record now result q)
        (matches_result_same now result q) h
]

-- A completion can be repeated: as long as the store still holds the record that it returned, under
-- the same owner, completing the run with the same result at any later time returns that record again
-- and changes nothing.
pub complete_again :
    (now later : ℕ) (run_id : String) (result : RunResult) (owner : Option ℕ) (s s' : RunStore)
    (r : RunRecord)
    → (complete now run_id result owner s).0 ≡ ok r
    → lookup run_id s'.records ≡ some r
    → is_foreign owner (lookup run_id s'.owners) ≡ false
    → complete later run_id result owner s' ≡ (ok r, s')
unfolding complete require
complete_again now later run_id result owner s s' r h found mine =
    let known = completed-Matches now run_id result owner s r h in ground arith
