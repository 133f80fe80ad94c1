-- ===== src/Budget/Atomic.antt =====
-- A method of `BudgetLedger` that raises writes nothing, and none touches the limits.
use governed_analytics_agent.Common.{
  ℕ, ◌≡◌, String, Bool, Result, ok, err, arith, lookup, Option-cases, inl, inr,
}
use governed_analytics_agent.Contracts.Enums.{ActionType}
use governed_analytics_agent.Contracts.Governance.{ModelRequest, ModelUsage, ModelReservation}
use governed_analytics_agent.Budget.{
  BudgetLedger, Failure, reserve_model_call, settle_model_call, fail_model_call, consume_tool,
  ensure_action_loop_available, consume_action_loop, consume_repair,
}

-- What a call that began at `l` has done, by how it ended.
abbrev pub Keeps : {A : Type 0} → BudgetLedger → Result Failure A × BudgetLedger → Type 0
Keeps l (ok a, l') = l'.limits ≡ l.limits
Keeps l (err e, l') = l' ≡ l

pub reserve_model_call-Keeps :
    (now : ℕ) (id : String) (q : ModelRequest) (l : BudgetLedger)
    → Keeps l (reserve_model_call now id q l)
unfolding reserve_model_call
reserve_model_call-Keeps now id q l = ground arith

pub settle_model_call-Keeps :
    (r : ModelReservation) (u : ModelUsage) (model : String) (l : BudgetLedger)
    → Keeps l (settle_model_call r u model l)
unfolding settle_model_call
settle_model_call-Keeps r u model l = elim (Option-cases (lookup r.reservation_id l.reservations)) [
  | inl missing ↦ ground arith
  | inr (active, found) ↦ ground arith
]

pub fail_model_call-Keeps :
    (r : ModelReservation) (l : BudgetLedger) → Keeps l (fail_model_call r l)
unfolding fail_model_call
fail_model_call-Keeps r l = elim (Option-cases (lookup r.reservation_id l.reservations)) [
  | inl missing ↦ ground arith
  | inr (active, found) ↦ ground arith
]

pub consume_tool-Keeps :
    (now : ℕ) (a : ActionType) (l : BudgetLedger) → Keeps l (consume_tool now a l)
unfolding consume_tool
consume_tool-Keeps now a l = ground arith

pub ensure_action_loop_available-Keeps :
    (now : ℕ) (l : BudgetLedger) → Keeps l (ensure_action_loop_available now l)
unfolding ensure_action_loop_available
ensure_action_loop_available-Keeps now l = ground arith

pub consume_action_loop-Keeps : (l : BudgetLedger) → Keeps l (consume_action_loop l)
unfolding consume_action_loop
consume_action_loop-Keeps l = ground arith

pub consume_repair-Keeps :
    (now : ℕ) (structured : Bool) (l : BudgetLedger) → Keeps l (consume_repair now structured l)
unfolding consume_repair
consume_repair-Keeps now structured l = ground arith
