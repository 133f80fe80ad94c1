-- ===== src/Invoker/Types.antt =====
-- The data of agent/modeling.py and agent/ports.py around `StructuredModelInvoker`, and its decisions.
use governed_analytics_agent.Common.{
  ℕ, String, Bool, true, false, not, ◌&&◌, ◌||◌, ◌==◌, length, is_none, if◌then◌else◌, Option, none,
  some, List, [], ◌∷◌, ◌++◌,
}
use governed_analytics_agent.Invoker.Accounting.{
  AgentModelError, Closed, safe_model, is_provider_model,
}
use governed_analytics_agent.Budget.{BudgetLedger, Failure, budget_exceeded}
use governed_analytics_agent.Contracts.Enums.{
  AgentFinishReason, AgentModelErrorCategory, ModelPurpose, StopReason,
}
use governed_analytics_agent.Contracts.Evidence.{RepairRecord, RepairOutcome, structured_output}
use governed_analytics_agent.Contracts.Governance.{GovernanceSnapshot}
use governed_analytics_agent.Contracts.Request.{StructuredModelRequest, StructuredModelResult}
use governed_analytics_agent.Contracts.Texts.{model_error_value}
use governed_analytics_agent.Contracts.Trace.{ModelCallTrace}

abbrev pub is_structure_error : AgentModelErrorCategory → Bool
is_structure_error AgentModelErrorCategory.invalid_json = true
is_structure_error AgentModelErrorCategory.invalid_structure = true
is_structure_error _ = false

-- `_REPAIRABLE_PURPOSES`
abbrev pub is_repairable_purpose : ModelPurpose → Bool
is_repairable_purpose ModelPurpose.repair = false
is_repairable_purpose _ = true

-- `finish_reason in {LENGTH, CONTENT_FILTER}`
abbrev pub is_cut_off : Option AgentFinishReason → Bool
is_cut_off (some AgentFinishReason.length) = true
is_cut_off (some AgentFinishReason.content_filter) = true
is_cut_off _ = false

-- `_stop_reason`
unfoldable pub stop_reason_of : AgentModelErrorCategory → StopReason
stop_reason_of AgentModelErrorCategory.provider_call_failed = StopReason.model_unavailable
stop_reason_of AgentModelErrorCategory.provider_http_4xx = StopReason.model_unavailable
stop_reason_of AgentModelErrorCategory.provider_rate_limited = StopReason.model_unavailable
stop_reason_of AgentModelErrorCategory.provider_http_5xx = StopReason.model_unavailable
stop_reason_of AgentModelErrorCategory.provider_timeout = StopReason.model_unavailable
stop_reason_of AgentModelErrorCategory.provider_connection_error = StopReason.model_unavailable
stop_reason_of AgentModelErrorCategory.missing_content = StopReason.model_unavailable
stop_reason_of AgentModelErrorCategory.invalid_content_type = StopReason.model_unavailable
stop_reason_of AgentModelErrorCategory.missing_usage = StopReason.model_unavailable
stop_reason_of AgentModelErrorCategory.invalid_usage = StopReason.model_unavailable
stop_reason_of AgentModelErrorCategory.missing_model = StopReason.model_unavailable
stop_reason_of AgentModelErrorCategory.invalid_json = StopReason.structured_output_invalid
stop_reason_of AgentModelErrorCategory.invalid_structure = StopReason.structured_output_invalid
stop_reason_of AgentModelErrorCategory.schema_identity_mismatch =
    StopReason.structured_output_invalid
stop_reason_of AgentModelErrorCategory.repair_failed = StopReason.repair_failed
stop_reason_of _ = StopReason.internal_error

-- `_allows_repair`
unfoldable pub allows_repair :
    StructuredModelRequest → AgentModelErrorCategory → AgentModelError → Bool
allows_repair request category error =
    is_repairable_purpose request.purpose
    && is_structure_error category
    && not (is_cut_off error.finish_reason)

-- `_repair_record`
unfoldable pub repair_record :
    String → StructuredModelRequest → AgentModelErrorCategory → RepairOutcome → RepairRecord
repair_record repair_id request error_code outcome = record {
  repair_id = repair_id;
  kind = structured_output;
  target = request.output_schema_name;
  error_code = model_error_value error_code;
  outcome = outcome;
  repair_action_type = none;
  repair_purpose = none;
  original_observation_id = none;
  repaired_observation_id = none;
}

-- What `await self._model.invoke(...)` does: it returns, raises an `AgentModelError` or another
-- exception, or is cancelled.
pub data Reply (T : Type 0) : Type 0 where
  replied : StructuredModelResult T → Reply T
  model_error : AgentModelError → Reply T
  other_error interrupted : Reply T

-- The clock at the reservation of a call, the id of the reservation, the reply, and the rounded
-- time that passed until a cancellation.
pub record Attempt (T : Type 0) : Type 0 where
  pub now : ℕ
  pub reservation_id : String
  pub reply : Reply T
  pub elapsed_ms : ℕ

-- The second attempt is only asked of when there is a repair.
pub record Script (T : Type 0) : Type 0 where
  pub first : Attempt T
  pub repair_id : String
  pub repair_now : ℕ
  pub second : Attempt T

pub record StructuredInvocation (T : Type 0) : Type 0 where
  pub result : StructuredModelResult T
  pub traces : List ModelCallTrace
  pub repair_record : Option RepairRecord
  pub governance : GovernanceSnapshot

-- `_validate_invocation`
unfoldable pub validate_invocation : {T : Type 0} → StructuredInvocation T → Bool
validate_invocation i =
    (length i.traces == 1 || length i.traces == 2)
    && not (length i.traces == 2 && is_none i.repair_record)

pub record StructuredInvocationError : Type 0 where
  pub category : AgentModelErrorCategory
  pub traces : List ModelCallTrace
  pub repair_record : Option RepairRecord
  pub governance : GovernanceSnapshot
  pub stop_reason : StopReason

-- How `invoke` ends: it returns, raises its own error, lets the `CancelledError` through, or the
-- `ValidationError` of the repair request, or the `ValueError` of `AgentModelError`.
pub data Outcome (T : Type 0) : Type 0 where
  returned : StructuredInvocation T → Outcome T
  raised : StructuredInvocationError → Outcome T
  cancelled_task invalid_repair_request unsafe_model : Outcome T

-- `self._model.model`, `self._budget`, and the model calls of `self._trace_recorder`
pub record Invoker : Type 0 where
  pub model : String
  pub budget : BudgetLedger
  pub model_calls : List ModelCallTrace

-- The ledger that a call leaves, and `self._append(trace)`.
abbrev pub append : Closed → Invoker → Invoker
append c s = record s { budget = c.budget; model_calls = s.model_calls ++ c.trace ∷ [] }

-- The stop reason of `except BudgetExceeded` and of `except Exception`.
abbrev pub blocked_reason : Failure → StopReason
blocked_reason (budget_exceeded reason) = reason
blocked_reason _ = StopReason.internal_error

abbrev pub reservation_category : Failure → AgentModelErrorCategory
reservation_category (budget_exceeded reason) = AgentModelErrorCategory.budget_exceeded
reservation_category _ = AgentModelErrorCategory.budget_reservation_failed

-- The snapshot that the error of a refused repair call carries.
abbrev pub blocked_governance :
    Failure → GovernanceSnapshot → GovernanceSnapshot → GovernanceSnapshot
blocked_governance (budget_exceeded reason) governance current = current
blocked_governance _ governance current = governance

-- The error that a provider's other exceptions count as; `none` is the `ValueError` of a model's name
-- that `AgentModelError` does not take.
abbrev pub provider_error : String → AgentModelError
provider_error model = record {
  category = AgentModelErrorCategory.provider_call_failed;
  provider_model = some (safe_model model);
  input_tokens = 0;
  output_tokens = 0;
  latency_ms = 0;
  finish_reason = none;
}

unfoldable pub provider_failed : String → Option AgentModelError
provider_failed model =
    if is_provider_model (safe_model model) then some (provider_error model) else none

module _ {T : Type 0} where
  abbrev pub fail_with :
      AgentModelErrorCategory
      → List ModelCallTrace
      → Option RepairRecord
      → GovernanceSnapshot
      → StopReason
      → Outcome T
  fail_with category traces repair_record governance stop_reason = raised (record {
    category = category;
    traces = traces;
    repair_record = repair_record;
    governance = governance;
    stop_reason = stop_reason;
  })
