-- ===== src/Budget.antt =====
-- runtime/budgets.py: `BudgetLedger`, a method for each method of the class. The clock's reading
-- and the hexadecimal text of `uuid4()` are arguments of the methods that ask for them.
pub mod Invariant
pub mod Atomic
pub mod Calls
pub mod Trace
mod Tests
use governed_analytics_agent.Common.{
  ℕ, ◌+◌, ◌-◌, String, Bool, true, false, ◌&&◌, ◌||◌, not, Option, none, some, List, [], ltb, leb,
  ◌==◌, if◌then◌else◌, str_eq, Result, ok, err, Action, get, put, raise, pure, lift, raise_if,
  or_raise, ◌>>=◌, ◌>>◌, Dict, lookup, insert, erase,
}
use governed_analytics_agent.Contracts.Enums.{ActionType, execute_sql, profile, StopReason}
use governed_analytics_agent.Contracts.Governance.{
  ModelRequest, ModelUsage, ModelReservation, GovernanceSnapshot, empty_snapshot,
}
use governed_analytics_agent.Pricing.{
  ModelPricing, exceeds_price_bracket, provider_model_has_pricing, estimate_cost_cny,
}

pub record BudgetLimits : Type 0 where
  pub max_action_loops : ℕ
  pub max_llm_calls : ℕ
  pub max_tool_calls : ℕ
  pub max_execute_calls : ℕ
  pub max_profile_calls : ℕ
  pub max_repairs : ℕ
  pub timeout_seconds : ℕ
  pub soft_cost_cny : ℕ
  pub hard_cost_cny : ℕ

pub record BudgetLedger : Type 0 where
  pub limits : BudgetLimits
  pub pricing : ModelPricing
  pub reservations : Dict ModelReservation
  pub snapshot : GovernanceSnapshot

-- `BudgetExceeded`, the `ValueError` of the price bracket, and the three `RuntimeError`s.
pub data Failure : Type 0 where
  budget_exceeded : StopReason → Failure
  price_bracket unpriced_provider_model usage_exceeds_reserved unknown_reservation : Failure

abbrev pub Ledger : Type 0 → Type 0
Ledger A = Action BudgetLedger Failure A

unfoldable pub new_ledger : BudgetLimits → ModelPricing → ℕ → BudgetLedger
new_ledger limits pricing now = record {
  limits = limits;
  pricing = pricing;
  reservations = [];
  snapshot = record empty_snapshot { deadline_monotonic = now + limits.timeout_seconds };
}

unfoldable pub ensure_time_remaining : ℕ → Ledger (Unit {0})
ensure_time_remaining now l =
    raise_if (leb l.snapshot.deadline_monotonic now) (budget_exceeded StopReason.task_timeout) l

-- A `ValueError` of the pricing passes through `reserve_model_call` as it is.
unfoldable pub projected_cost : ModelRequest → Ledger ℕ
projected_cost request l =
    elim (estimate_cost_cny request.prompt_length request.max_output_tokens l.pricing) [
      | ok amount ↦ (ok amount, l)
      | err e ↦ (err price_bracket, l)
    ]

abbrev pub reservation_for : String → ModelRequest → ℕ → ModelReservation
reservation_for new_id request projected = record {
  reservation_id = new_id;
  input_token_upper_bound = request.prompt_length;
  output_token_upper_bound = request.max_output_tokens;
  reserved_cost_cny = projected;
}

unfoldable pub reserve_model_call : ℕ → String → ModelRequest → Ledger ModelReservation
unfolding ensure_time_remaining projected_cost
reserve_model_call now new_id request = do
  ensure_time_remaining now
  l ← get
  raise_if (leb l.limits.max_llm_calls l.snapshot.llm_calls)
      (budget_exceeded StopReason.llm_call_limit)
  projected ← projected_cost request
  raise_if
      (ltb l.limits.hard_cost_cny
        (l.snapshot.committed_cost_cny + l.snapshot.reserved_cost_cny + projected))
      (budget_exceeded StopReason.cost_hard_cap)
  let reservation = reservation_for new_id request projected
  put (record l {
    reservations = insert new_id reservation l.reservations;
    snapshot = record (l.snapshot) {
      llm_calls = l.snapshot.llm_calls + 1;
      reserved_cost_cny = l.snapshot.reserved_cost_cny + projected;
    };
  })
  pure reservation

-- `==` of two reservations.
unfoldable pub same_reservation : ModelReservation → ModelReservation → Bool
same_reservation a b =
    str_eq a.reservation_id b.reservation_id
    && a.input_token_upper_bound == b.input_token_upper_bound
    && a.output_token_upper_bound == b.output_token_upper_bound
    && a.reserved_cost_cny == b.reserved_cost_cny

unfoldable pub require_active : ModelReservation → Ledger ModelReservation
unfolding same_reservation
require_active reservation l = elim (lookup reservation.reservation_id l.reservations) [
  | none ↦ (err unknown_reservation, l)
  | some active ↦
      if same_reservation active reservation then (ok active, l) else (err unknown_reservation, l)
]

-- The cost of the usage, refused above the reserved cost; the pricing's `ValueError` is refused in
-- the same words.
unfoldable pub actual_cost : ModelReservation → ModelUsage → Ledger ℕ
actual_cost active usage l =
    elim (estimate_cost_cny usage.input_tokens usage.output_tokens l.pricing) [
      | ok amount ↦
          if ltb active.reserved_cost_cny amount
          then (err usage_exceeds_reserved, l)
          else (ok amount, l)
      | err e ↦ (err usage_exceeds_reserved, l)
    ]

-- The state that `settle_model_call` and `fail_model_call` write: the reservation is dropped, and
-- `amount` is committed in its place. A reserved cost covers each of its parts, so `-` is exact.
unfoldable pub commit : ModelReservation → ℕ → ModelUsage → BudgetLedger → BudgetLedger
commit active amount usage l =
    let committed = l.snapshot.committed_cost_cny + amount in
    record l {
      reservations = erase active.reservation_id l.reservations;
      snapshot = record (l.snapshot) {
        input_tokens = l.snapshot.input_tokens + usage.input_tokens;
        output_tokens = l.snapshot.output_tokens + usage.output_tokens;
        committed_cost_cny = committed;
        reserved_cost_cny = l.snapshot.reserved_cost_cny - active.reserved_cost_cny;
        soft_cap_reached = l.snapshot.soft_cap_reached || leb l.limits.soft_cost_cny committed;
      };
    }

unfoldable pub settle_model_call :
    ModelReservation → ModelUsage → String → Ledger GovernanceSnapshot
unfolding require_active actual_cost commit
settle_model_call reservation usage provider_model = do
  active ← require_active reservation
  l ← get
  raise_if (not (provider_model_has_pricing provider_model l.pricing)) unpriced_provider_model
  amount ← actual_cost active usage
  put (commit active amount usage l)
  pure (commit active amount usage l).snapshot

abbrev pub no_usage : ModelUsage
no_usage = record { input_tokens = 0; output_tokens = 0 }

unfoldable pub fail_model_call : ModelReservation → Ledger GovernanceSnapshot
unfolding require_active commit
fail_model_call reservation = do
  active ← require_active reservation
  l ← get
  put (commit active active.reserved_cost_cny no_usage l)
  pure (commit active active.reserved_cost_cny no_usage l).snapshot

abbrev pub is_execute : ActionType → Bool
is_execute execute_sql = true
is_execute _ = false

abbrev pub is_profile : ActionType → Bool
is_profile profile = true
is_profile _ = false

unfoldable pub consume_tool : ℕ → ActionType → Ledger GovernanceSnapshot
unfolding ensure_time_remaining
consume_tool now action_type = do
  ensure_time_remaining now
  l ← get
  let s = l.snapshot
  raise_if (leb l.limits.max_tool_calls s.tool_calls) (budget_exceeded StopReason.tool_call_limit)
  raise_if (is_execute action_type && leb l.limits.max_execute_calls s.execute_calls)
      (budget_exceeded StopReason.execute_limit)
  raise_if (is_profile action_type && leb l.limits.max_profile_calls s.profile_calls)
      (budget_exceeded StopReason.profile_limit)
  let s' : GovernanceSnapshot = record s {
    tool_calls = s.tool_calls + 1;
    execute_calls = if is_execute action_type then s.execute_calls + 1 else s.execute_calls;
    profile_calls = if is_profile action_type then s.profile_calls + 1 else s.profile_calls;
  }
  put (record l { snapshot = s' })
  pure s'

unfoldable pub ensure_action_loop_available : ℕ → Ledger (Unit {0})
unfolding ensure_time_remaining
ensure_action_loop_available now = do
  ensure_time_remaining now
  l ← get
  raise_if (leb l.limits.max_action_loops l.snapshot.action_loops)
      (budget_exceeded StopReason.analysis_loop_limit)

unfoldable pub consume_action_loop : Ledger GovernanceSnapshot
consume_action_loop = do
  l ← get
  let s = l.snapshot
  raise_if (leb l.limits.max_action_loops s.action_loops)
      (budget_exceeded StopReason.analysis_loop_limit)
  let s' : GovernanceSnapshot = record s { action_loops = s.action_loops + 1 }
  put (record l { snapshot = s' })
  pure s'

unfoldable pub consume_repair : ℕ → Bool → Ledger GovernanceSnapshot
unfolding ensure_time_remaining
consume_repair now structured_output = do
  ensure_time_remaining now
  l ← get
  let s = l.snapshot
  raise_if (leb l.limits.max_repairs s.repair_count) (budget_exceeded StopReason.repair_failed)
  let s' : GovernanceSnapshot = record s {
    repair_count = s.repair_count + 1;
    structured_output_repair_count =
        s.structured_output_repair_count + (if structured_output then 1 else 0);
  }
  put (record l { snapshot = s' })
  pure s'
