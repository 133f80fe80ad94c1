-- ===== src/Runner/Records.antt =====
-- What the reconciliation of a record guarantees when it returns, whatever the faults of the store.
use governed_analytics_agent.Common.{
  ℕ, zero, suc, ◌≡◌, refl, String, Bool, true, false, Option, some, ok, err, arith, lookup,
  lookup-insert_self, Option-cases, Bool-cases, inl, inr, Result, ◌⊎◌,
}
use governed_analytics_agent.Runner.Ports.{Runner, ask_runs, answered, run_consistency}
use governed_analytics_agent.Runner.Reconcile.{read_run_for_reconciliation, reconciled, reconcile}
use governed_analytics_agent.Runs.{RunStore, Store, get_run, mark_running, complete, require}
use governed_analytics_agent.Runs.Record.{RunRecord, RunResult}

-- The record that a method returns is the one that the store then holds.
abbrev pub Returns : String → (ℕ → Store RunRecord) → Type 0
Returns run_id method =
    (now : ℕ) (s : RunStore) (found : RunRecord)
    → (method now s).0 ≡ ok found
    → lookup run_id (method now s).1.records ≡ some found

get_run-Returns :
    (run_id : String) (owner : Option ℕ) → Returns run_id (λ now. get_run run_id owner)
unfolding get_run require
get_run-Returns run_id owner now s found h = ground arith

pub mark_running-Returns :
    (run_id : String) (owner : Option ℕ) → Returns run_id (λ now. mark_running now run_id owner)
unfolding mark_running require
mark_running-Returns run_id owner now s found h = elim (Option-cases (lookup run_id s.records)) [
  | inl missing ↦ absurd (ground arith)
  | inr (r, held) ↦ ground (arith, lookup-insert_self run_id found s.records)
]

pub complete-Returns :
    (run_id : String) (result : RunResult) (owner : Option ℕ)
    → Returns run_id (λ now. complete now run_id result owner)
unfolding complete require
complete-Returns run_id result owner now s found h = elim (Option-cases (lookup run_id s.records)) [
  | inl missing ↦ absurd (ground arith)
  | inr (r, held) ↦ ground (arith, lookup-insert_self run_id found s.records)
]

asked :
    (run_id : String) (method : ℕ → Store RunRecord) (r : Runner) {found : RunRecord}
    → Returns run_id method
    → (ask_runs method r).0 ≡ ok (answered found)
    → lookup run_id (ask_runs method r).1.run_store.records ≡ some found
unfolding ask_runs
asked run_id method r {found} returns h =
    ground (arith, returns (r.turns r.calls).now r.run_store found)

-- The record that `_read_run_for_reconciliation` returns is the one that the store holds.
read_holds :
    (run_id : String) (owner : Option ℕ) (r : Runner) {found : RunRecord}
    → (read_run_for_reconciliation run_id owner r).0 ≡ ok found
    → lookup run_id (read_run_for_reconciliation run_id owner r).1.run_store.records ≡ some found
unfolding read_run_for_reconciliation
read_holds run_id owner r {found} h = ground (
  arith,
  asked run_id (λ now. get_run run_id owner) r {found = found} (get_run-Returns run_id owner),
)

-- The record that `reconciled` returns is the one that the store then holds.
reconciled_holds :
    (run_id : String) (owner : Option ℕ) (method : ℕ → Store RunRecord) (r : Runner)
    {found : RunRecord}
    → Returns run_id method
    → (reconciled method run_id owner r).0 ≡ ok found
    → lookup run_id (reconciled method run_id owner r).1.run_store.records ≡ some found
unfolding reconciled
reconciled_holds run_id owner method r {found} returns h = ground (
  arith,
  asked run_id method r {found = found} returns,
  read_holds run_id owner (ask_runs method r).1 {found = found},
)

pub Result-cases :
    {E A : Type 0} (x : Result E A) → ((a : A) × (x ≡ ok a)) ⊎ ((e : E) × (x ≡ err e))
Result-cases (ok a) = inl (a, refl)
Result-cases (err e) = inr (e, refl)

-- The store holds a record that the loop was made to bring about.
abbrev pub Holds : String → (RunRecord → Bool) → Runner → Type 0
Holds run_id done r =
    (found : RunRecord) × (lookup run_id r.run_store.records ≡ some found) × (done found ≡ true)

module _ (n : ℕ) (method : ℕ → Store RunRecord) (run_id : String) (owner : Option ℕ)
    (done again : RunRecord → Bool) (r : Runner) where
  reconcile-done :
      {found : RunRecord}
      → (reconciled method run_id owner r).0 ≡ ok found
      → done found ≡ true
      → (reconcile (suc n) method run_id owner done again r).1
        ≡ (reconciled method run_id owner r).1
  unfolding reconcile
  reconcile-done {found} e h = ground arith

  reconcile_again :
      {found : RunRecord}
      → (reconciled method run_id owner r).0 ≡ ok found
      → done found ≡ false
      → again found ≡ true
      → reconcile (suc n) method run_id owner done again r
        ≡ reconcile n method run_id owner done again (reconciled method run_id owner r).1
  unfolding reconcile
  reconcile_again {found} e h k = ground arith

  reconcile_stuck :
      {found : RunRecord}
      → (reconciled method run_id owner r).0 ≡ ok found
      → done found ≡ false
      → again found ≡ false
      → (reconcile (suc n) method run_id owner done again r).0 ≡ err run_consistency
  unfolding reconcile
  reconcile_stuck {found} e h k = ground arith

pub reconcile-Holds :
    (rounds : ℕ) (method : ℕ → Store RunRecord) (run_id : String) (owner : Option ℕ)
    (done again : RunRecord → Bool) (r : Runner)
    → Returns run_id method
    → (reconcile rounds method run_id owner done again r).0 ≡ ok tt
    → Holds run_id done (reconcile rounds method run_id owner done again r).1
unfolding reconcile
reconcile-Holds zero method run_id owner done again r returns h = absurd (ground arith)
reconcile-Holds (suc n) method run_id owner done again r returns h =
    elim (Result-cases (reconciled method run_id owner r).0) [
      | inr (e, raised) ↦ absurd (ground arith)
      | inl (found, e) ↦
          let held = reconciled_holds run_id owner method r {found = found} returns e in
          let r' = (reconciled method run_id owner r).1 in
          elim (Bool-cases (done found)) [
            | inl finished ↦
                rw (reconcile-done n method run_id owner done again r {found = found} e finished)
                  (found, held, finished)
            | inr unfinished ↦ elim (Bool-cases (again found)) [
              | inl more ↦
                  let next =
                    reconcile_again n method run_id owner done again r {found = found} e unfinished
                      more in
                  rw next
                    (reconcile-Holds n method run_id owner done again r' returns (rw next at h))
              | inr stuck ↦ absurd (
                  ground (
                    arith,
                    reconcile_stuck n method run_id owner done again r {found = found} e unfinished
                        stuck,
                  ))
            ]
          ]
    ]
