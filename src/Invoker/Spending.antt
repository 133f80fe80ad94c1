-- ===== src/Invoker/Spending.antt =====
-- What an invocation spends, step by step: the traces it records, the calls and repairs it counts,
-- and the cost it commits; what it reserved is released.
use governed_analytics_agent.Common.{
  ℕ, ◌+◌, ◌≡◌, String, true, none, List, [], ◌∷◌, ◌++◌, length, length-append, all_of, ok, arith,
  lookup,
}
use mathlib.Core.List.{append_assoc, append-nil}
use governed_analytics_agent.Budget.{BudgetLedger, reserve_model_call, consume_repair}
use governed_analytics_agent.Budget.Invariant.{
  IsValid, reserve_model_call-IsValid, consume_repair-IsValid,
}
use governed_analytics_agent.Contracts.Governance.{
  ModelRequest, ModelReservation, GovernanceSnapshot,
}
use governed_analytics_agent.Contracts.Trace.{ModelCallTrace, validate_model_call}
use governed_analytics_agent.Invoker.Accounting.{Closed}
use governed_analytics_agent.Invoker.Calls.{ClosesCall}
use governed_analytics_agent.Invoker.Closing.{Holds}
use governed_analytics_agent.Invoker.Types.{Invoker, append}
use governed_analytics_agent.Pricing.{estimate_cost_cny}

abbrev pub total_cost : List ModelCallTrace → ℕ
total_cost [] = 0
total_cost (t ∷ ts) = t.estimated_cost_cny + total_cost ts

-- From `s` to `s'`, the calls of the traces `ts` and so many repairs were made.
pub record Spends (s s' : Invoker) (ts : List ModelCallTrace) (repairs : ℕ) : Type 0 where
  pub recorded : s'.model_calls ≡ s.model_calls ++ ts
  pub released : s'.budget.reservations ≡ s.budget.reservations
  pub paid :
      s'.budget.snapshot.committed_cost_cny ≡ s.budget.snapshot.committed_cost_cny + total_cost ts
  pub called : s'.budget.snapshot.llm_calls ≡ s.budget.snapshot.llm_calls + length ts
  pub repaired : s'.budget.snapshot.repair_count ≡ s.budget.snapshot.repair_count + repairs
  pub valid : IsValid s.budget → IsValid s'.budget
  pub sound : all_of validate_model_call ts ≡ true

total_cost-append :
    (ts us : List ModelCallTrace) → total_cost (ts ++ us) ≡ total_cost ts + total_cost us
total_cost-append [] us = omega arith
total_cost-append (t ∷ ts) us = omega (arith, total_cost-append ts us)

all_of-append :
    (ts us : List ModelCallTrace)
    → all_of validate_model_call ts ≡ true
    → all_of validate_model_call us ≡ true
    → all_of validate_model_call (ts ++ us) ≡ true
all_of-append [] us h k = k
all_of-append (t ∷ ts) us h k = ground (arith, all_of-append ts us)

pub Spends-nil : (s : Invoker) → Spends s s [] 0
Spends-nil s = ground (arith, append-nil s.model_calls)

pub Spends-append :
    (s s' s'' : Invoker) (ts us : List ModelCallTrace) (m n : ℕ)
    → Spends s s' ts m
    → Spends s' s'' us n
    → Spends s s'' (ts ++ us) (m + n)
Spends-append s s' s'' ts us m n h k = ground (
  arith,
  append_assoc s.model_calls ts us,
  total_cost-append ts us,
  length-append ts us,
  all_of-append ts us,
)

-- A granted reservation.
pub record Opens (r : ModelReservation) (l l' : BudgetLedger) : Type 0 where
  pub holds : Holds r l.reservations l'
  pub unpaid : l'.snapshot.committed_cost_cny ≡ l.snapshot.committed_cost_cny
  pub called : l'.snapshot.llm_calls ≡ l.snapshot.llm_calls + 1
  pub unrepaired : l'.snapshot.repair_count ≡ l.snapshot.repair_count
  pub valid : IsValid l → IsValid l'

reserve_Holds :
    (now : ℕ) (id : String) (q : ModelRequest) (l l' : BudgetLedger) {r : ModelReservation}
    → lookup id l.reservations ≡ none
    → reserve_model_call now id q l ≡ (ok r, l')
    → Holds r l.reservations l'
      × (l'.snapshot.committed_cost_cny ≡ l.snapshot.committed_cost_cny)
      × (l'.snapshot.llm_calls ≡ l.snapshot.llm_calls + 1)
      × (l'.snapshot.repair_count ≡ l.snapshot.repair_count)
unfolding reserve_model_call estimate_cost_cny
reserve_Holds now id q l l' {r} fresh e = ground arith

pub reserve_Opens :
    (now : ℕ) (id : String) (q : ModelRequest) (l l' : BudgetLedger) {r : ModelReservation}
    → lookup id l.reservations ≡ none
    → reserve_model_call now id q l ≡ (ok r, l')
    → Opens r l l'
reserve_Opens now id q l l' {r} fresh e = ground (
  arith,
  reserve_Holds now id q l l' {r = r} fresh e,
  reserve_model_call-IsValid now id q l fresh,
)

-- A call from its reservation to its trace.
pub call_Spends :
    (s : Invoker) (l : BudgetLedger) (r : ModelReservation) (c : Closed)
    → Opens r s.budget l
    → ClosesCall s.budget.reservations l c
    → Spends s (append c (record s { budget = l })) (c.trace ∷ []) 0
call_Spends s l r c o h = ground arith

-- A repair that was granted.
pub repair_Spends :
    (now : ℕ) (s : Invoker) (l : BudgetLedger) {g : GovernanceSnapshot}
    → consume_repair now true s.budget ≡ (ok g, l)
    → Spends s (record s { budget = l }) [] 1 × (g ≡ l.snapshot)
unfolding consume_repair
repair_Spends now s l {g} e =
    ground (arith, consume_repair-IsValid now true s.budget, append-nil s.model_calls)
