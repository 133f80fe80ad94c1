-- ===== src/Invoker/Tests.antt =====
-- An answer that is no valid JSON and is repaired: runs of `invoke`, and the theorems at concrete inputs.
use governed_analytics_agent.Common.{
  ℕ, ◌+◌, ◌≤◌, ◌≡◌, refl, Bool, true, false, some, none, [], length, arith,
}
use governed_analytics_agent.Agent.Failures.{map_agent_failure, agent_model, stop_reasons_agree}
use governed_analytics_agent.Budget.{
  BudgetLimits, new_ledger, reserve_model_call, consume_repair, settle_model_call, fail_model_call,
}
use governed_analytics_agent.Budget.Invariant.{IsValid, new_ledger-IsValid}
use governed_analytics_agent.Contracts.Enums.{
  AgentFinishReason, AgentModelErrorCategory, ModelPurpose,
}
use governed_analytics_agent.Contracts.Governance.{ModelUsage}
use governed_analytics_agent.Contracts.Json.{
  empty, entry, text, members_have_forbidden_key, is_evaluation_only_key,
}
use governed_analytics_agent.Contracts.Request.{
  StructuredModelRequest, StructuredModelResult, validate_request, for_repair, validate_result,
}
use governed_analytics_agent.Events.Identifiers.{matches_identifier, matches_run_id}
use governed_analytics_agent.Events.Vocabulary.{member}
use governed_analytics_agent.Invoker.{sizes, invoke, provider_failed}
use governed_analytics_agent.Invoker.Accounting.{
  AgentModelError, settle_or_fail, settle_model_error, cancel, fail_closed, safe_model,
  is_provider_model,
}
use governed_analytics_agent.Invoker.Promises.{invoke_releases, invoke_bounded}
use governed_analytics_agent.Invoker.Single.{HasRoom, invoke_answers}
use governed_analytics_agent.Invoker.Types.{
  Reply, replied, model_error, other_error, interrupted, Script, StructuredInvocation, Outcome,
  returned, Invoker, stop_reason_of, allows_repair, provider_failed,
}
use governed_analytics_agent.Invoker.Unrepaired.{IsSingle, invoke-IsSingle, asks_repair}
use governed_analytics_agent.Pricing.{
  ModelPricing, cost, estimate_cost_cny, provider_model_has_pricing,
}

abbrev limits : BudgetLimits
limits = record {
  max_action_loops = 6;
  max_llm_calls = 2;
  max_tool_calls = 2;
  max_execute_calls = 1;
  max_profile_calls = 1;
  max_repairs = 1;
  timeout_seconds = 100;
  soft_cost_cny = 4000000000;
  hard_cost_cny = 30000000000;
}

abbrev pricing : ModelPricing
pricing = record {
  provider = "deepseek";
  region = "global";
  requested_model = "deepseek-v4-flash";
  resolved_model = "DeepSeek-V4-Flash-0731";
  effective_date = "2026-09-01";
  unit_tokens = 1000000;
  input_token_upper_bound = 1000000;
  input_price = 2983596000000;
  output_price = 8950788000000;
  pricing_basis = "peak";
  source = "https://api-docs.deepseek.com/quick_start/pricing";
  fx_source = none;
}

abbrev request : StructuredModelRequest
request = record {
  purpose = ModelPurpose.plan;
  system_prompt = "Plan the analysis.";
  user_payload = entry "query" (text "GMV in March") (entry "draft" (text "x") empty);
  output_schema_name = "TypedMetricPlan";
  output_schema_summary = entry "title" (text "TypedMetricPlan") empty;
  max_output_tokens = 500;
}

-- Every prompt has 1000 bytes.
abbrev prompt_length : StructuredModelRequest → ℕ
prompt_length q = 1000

abbrev usage : ModelUsage
usage = record { input_tokens = 900; output_tokens = 200 }

abbrev good : StructuredModelResult ℕ
good = record {
  output = 7;
  provider_model = "deepseek-v4-flash";
  usage = usage;
  latency_ms = 40;
  finish_reason = some AgentFinishReason.stop;
  output_truncated = false;
}

abbrev malformed : AgentModelError
malformed = record {
  category = AgentModelErrorCategory.invalid_json;
  provider_model = some "deepseek-v4-flash";
  input_tokens = 900;
  output_tokens = 100;
  latency_ms = 30;
  finish_reason = some AgentFinishReason.stop;
}

abbrev script : Reply ℕ → Reply ℕ → Script ℕ
script one two = record {
  first = record { now = 5; reservation_id = "r1"; reply = one; elapsed_ms = 12 };
  repair_id = "fix1";
  repair_now = 6;
  second = record { now = 7; reservation_id = "r2"; reply = two; elapsed_ms = 12 };
}

abbrev start : Invoker
start = record {
  model = "deepseek-v4-flash";
  budget = new_ledger limits pricing 0;
  model_calls = [];
}

program : Unit {0}
unfolding invoke reserve_model_call new_ledger estimate_cost_cny cost allows_repair consume_repair
    settle_model_error settle_model_call provider_model_has_pricing for_repair validate_request
    matches_identifier members_have_forbidden_key is_evaluation_only_key member settle_or_fail
    validate_result asks_repair cancel fail_closed fail_model_call safe_model is_provider_model
    matches_run_id provider_failed
program = tt

abbrev is_returned : Outcome ℕ → Bool
is_returned (returned i) = true
is_returned _ = false

abbrev repaired : Script ℕ
repaired = script (model_error malformed) (replied good)

abbrev run : Script ℕ → Outcome ℕ × Invoker
run steps = invoke prompt_length request "TypedMetricPlan" steps start

-- The repaired call is returned after two calls and one repair.
repaired_run :
    (is_returned (run repaired).0 ≡ true)
    × ((run repaired).1.budget.snapshot.llm_calls ≡ 2)
    × ((run repaired).1.budget.snapshot.repair_count ≡ 1)
unfolding program
repaired_run = (refl, refl, refl)

-- A cancelled call costs what was reserved for it.
cancelled_run :
    (run (script interrupted other_error)).1.budget.snapshot.committed_cost_cny ≡ 7458990000
unfolding program
cancelled_run = refl

-- Where the model's name has a colon, an exception of the provider's client is answered with a
-- `ValueError`, and the call's reservation stays.
unsafe_run :
    length
      (invoke prompt_length request "TypedMetricPlan"
        (script other_error other_error)
        (record start { model = "qwen2.5:7b" })).1.budget.reservations
    ≡ 1
unfolding program
unsafe_run = refl

start-IsValid : IsValid start.budget
start-IsValid = new_ledger-IsValid limits pricing 0

invoke_releases_example :
    ((run repaired).1.budget.reservations ≡ start.budget.reservations)
    × IsValid (run repaired).1.budget
unfolding program
invoke_releases_example =
    invoke_releases prompt_length request "TypedMetricPlan" repaired start start-IsValid refl refl
      tt refl refl

invoke_bounded_example :
    (repairs : ℕ) × (repairs ≤ 1)
    × ((run repaired).1.budget.snapshot.repair_count ≡ start.budget.snapshot.repair_count + repairs)
    × ((run repaired).1.budget.snapshot.llm_calls ≤ start.budget.snapshot.llm_calls + 1 + repairs)
unfolding program
invoke_bounded_example =
    invoke_bounded prompt_length request "TypedMetricPlan" repaired start refl refl tt refl refl

invoke-IsSingle_example : IsSingle start (run (script other_error (replied good))).1
unfolding program
invoke-IsSingle_example =
    invoke-IsSingle prompt_length request "TypedMetricPlan" (script other_error (replied good))
      start refl tt refl

enough : HasRoom 5 (sizes prompt_length request) start.budget
unfolding program
enough = record {
  in_time = omega arith;
  call_left = omega arith;
  in_bracket = omega arith;
  affordable = omega arith;
}

invoke_answers_example :
    (i : StructuredInvocation ℕ) × ((run (script (replied good) other_error)).0 ≡ returned i)
    × (i.result ≡ good)
    × (i.repair_record ≡ none)
unfolding program
invoke_answers_example =
    invoke_answers prompt_length request "TypedMetricPlan" (script (replied good) other_error) start
      good refl enough refl (omega arith) (omega arith) refl

stop_reasons_agree_example :
    map_agent_failure (agent_model AgentModelErrorCategory.provider_timeout)
    ≡ stop_reason_of AgentModelErrorCategory.provider_timeout
stop_reasons_agree_example =
    stop_reasons_agree AgentModelErrorCategory.provider_timeout (λ e. ground (arith, e))
