-- ===== src/Budget/Tests.antt =====
-- A ledger with two calls allowed: runs of the methods, and the theorems at concrete inputs.
use governed_analytics_agent.Common.{◌≡◌, refl, true, none, ok, err, arith, inr}
use governed_analytics_agent.Contracts.Enums.{execute_sql, StopReason}
use governed_analytics_agent.Contracts.Governance.{ModelRequest, ModelUsage, ModelReservation}
use governed_analytics_agent.Pricing.{
  ModelPricing, cost, estimate_cost_cny, provider_model_has_pricing,
}
use governed_analytics_agent.Budget.{
  BudgetLimits, BudgetLedger, budget_exceeded, unknown_reservation, new_ledger, reserve_model_call,
  settle_model_call, fail_model_call, consume_tool, ensure_action_loop_available, consume_repair,
  commit, reservation_for,
}
use governed_analytics_agent.Budget.Invariant.{
  IsValid, reserve_model_call-IsValid, new_ledger-IsValid,
}
use governed_analytics_agent.Budget.Calls.{settle_within_reservation, reservation_spent_once}
use governed_analytics_agent.Budget.Trace.{
  reserve, settle, here, next, apply, reachable-IsValid, apply_atomic,
}

abbrev limits : BudgetLimits
limits = record {
  max_action_loops = 6;
  max_llm_calls = 2;
  max_tool_calls = 2;
  max_execute_calls = 1;
  max_profile_calls = 1;
  max_repairs = 1;
  timeout_seconds = 100;
  soft_cost_cny = 4000000000;
  hard_cost_cny = 10000000000;
}

abbrev pricing : ModelPricing
pricing = record {
  provider = "deepseek";
  region = "global";
  requested_model = "deepseek-v4-flash";
  resolved_model = "DeepSeek-V4-Flash-0731";
  effective_date = "2026-09-01";
  unit_tokens = 1000000;
  input_token_upper_bound = 1000000;
  input_price = 2983596000000;
  output_price = 8950788000000;
  pricing_basis = "peak";
  source = "https://api-docs.deepseek.com/quick_start/pricing";
  fx_source = none;
}

abbrev request : ModelRequest
request = record { prompt_length = 1000; max_output_tokens = 500 }

abbrev usage : ModelUsage
usage = record { input_tokens = 900; output_tokens = 200 }

abbrev granted : ModelReservation
granted = reservation_for "r1" request 7458990000

abbrev start : BudgetLedger
start = new_ledger limits pricing 0

abbrev reserved : BudgetLedger
reserved = (reserve_model_call 5 "r1" request start).1

program : Unit {0}
unfolding new_ledger reserve_model_call settle_model_call fail_model_call consume_tool
    ensure_action_loop_available consume_repair estimate_cost_cny cost provider_model_has_pricing
    apply
program = tt

-- The second reservation of the same size would pass the hard cap.
reserve_twice :
    ((reserve_model_call 5 "r1" request start).0 ≡ ok granted)
    × ((reserve_model_call 6 "r2" request reserved).0
        ≡ err (budget_exceeded StopReason.cost_hard_cap))
unfolding program
reserve_twice = (refl, refl)

-- The second execute call passes its own limit before the limit of tool calls.
execute_twice :
    (consume_tool 5 execute_sql (consume_tool 5 execute_sql start).1).0
    ≡ err (budget_exceeded StopReason.execute_limit)
unfolding program
execute_twice = refl

settle_soft_cap :
    (settle_model_call granted usage "deepseek-v4-flash" reserved).1.snapshot.soft_cap_reached
    ≡ true
unfolding program
settle_soft_cap = refl

reserved-IsValid : IsValid reserved
unfolding program
reserved-IsValid =
    reserve_model_call-IsValid 5 "r1" request start refl (new_ledger-IsValid limits pricing 0)

reachable-IsValid_example :
    IsValid
      (apply (settle granted usage "deepseek-v4-flash") (apply (reserve 5 "r1" request) start).1).1
    × ((apply
          (settle granted usage "deepseek-v4-flash")
          (apply (reserve 5 "r1" request) start).1).1.limits
        ≡ limits)
unfolding program
reachable-IsValid_example =
    reachable-IsValid limits pricing 0
      (next (next here (reserve 5 "r1" request) refl) (settle granted usage "deepseek-v4-flash") tt)

apply_atomic_example : (apply (reserve 6 "r2" request) reserved).1 ≡ reserved
unfolding program
apply_atomic_example = apply_atomic (reserve 6 "r2" request) reserved refl

settle_within_reservation_example :
    settle_model_call granted usage "DeepSeek-V4-Flash-0731" reserved ≡ (
      ok (commit granted (cost 900 200 pricing) usage reserved).snapshot,
      commit granted (cost 900 200 pricing) usage reserved,
    )
unfolding program
settle_within_reservation_example =
    settle_within_reservation 5 "r1" request usage "DeepSeek-V4-Flash-0731" start reserved refl refl
      refl (omega arith) (omega arith) refl

abbrev failed : BudgetLedger
failed = (fail_model_call granted reserved).1

reservation_spent_once_example :
    (settle_model_call granted usage "deepseek-v4-flash" failed ≡ (err unknown_reservation, failed))
    × (fail_model_call granted failed ≡ (err unknown_reservation, failed))
unfolding program
reservation_spent_once_example =
    reservation_spent_once granted usage usage "deepseek-v4-flash" "deepseek-v4-flash" reserved
      failed {s = failed.snapshot} reserved-IsValid (inr refl)
