-- ===== src/Invoker/Accounting.antt =====
-- One model call of agent/modeling.py against the budget: what `StructuredModelInvoker` does with a
-- reservation once the provider has answered, failed or been cancelled, and the trace it writes.
use governed_analytics_agent.Common.{
  ℕ, ◌-◌, String, Bool, true, false, not, ◌&&◌, ◌==◌, Option, none, some, List, [], ◌∷◌, ltb,
  if◌then◌else◌, ok, err, any_of,
}
use governed_analytics_agent.Budget.{BudgetLedger, settle_model_call, fail_model_call}
use governed_analytics_agent.Contracts.Enums.{AgentFinishReason, AgentModelErrorCategory}
use governed_analytics_agent.Contracts.Governance.{ModelUsage, ModelReservation, GovernanceSnapshot}
use governed_analytics_agent.Contracts.Json.{lower}
use governed_analytics_agent.Contracts.Request.{StructuredModelRequest, StructuredModelResult}
use governed_analytics_agent.Contracts.Texts.{model_error_value}
use governed_analytics_agent.Contracts.Trace.{
  ModelCallTrace, CallOutcome, completed, failed, cancelled, is_length,
}
use governed_analytics_agent.Events.Identifiers.{codes, matches_identifier, matches_run_id}

-- `AgentModelError` of agent/ports.py
pub record AgentModelError : Type 0 where
  pub category : AgentModelErrorCategory
  pub provider_model : Option String
  pub input_tokens : ℕ
  pub output_tokens : ℕ
  pub latency_ms : ℕ
  pub finish_reason : Option AgentFinishReason

abbrev pub starts_with : List ℕ → List ℕ → Bool
starts_with [] cs = true
starts_with (p ∷ ps) [] = false
starts_with (p ∷ ps) (c ∷ cs) = (p == c) && starts_with ps cs

-- `value.lower().startswith(("sk-", "pk-", "bearer-"))`
unfoldable pub is_credential : List ℕ → Bool
is_credential cs =
    any_of (λ prefix. starts_with (codes prefix) (lower cs)) ("sk-" ∷ "pk-" ∷ "bearer-" ∷ [])

-- `_safe_model` of a text
unfoldable pub safe_model : String → String
unfolding is_credential
safe_model value =
    if matches_identifier (codes value) && not (is_credential (codes value))
    then value
    else "unknown-model"

-- Whether `AgentModelError` takes `value` for its `provider_model`: unlike `_safe_model`, it takes no
-- colon.
unfoldable pub is_provider_model : String → Bool
unfolding is_credential
is_provider_model value = matches_run_id (codes value) && not (is_credential (codes value))

-- `error.provider_model or self._model.model`
abbrev pub model_of : Option String → String → String
model_of none model = model
model_of (some String.[]) model = model
model_of (some provider_model) model = provider_model

-- What a call leaves: the snapshot and the trace that the method returns, and the ledger.
pub record Closed : Type 0 where
  pub governance : GovernanceSnapshot
  pub trace : ModelCallTrace
  pub budget : BudgetLedger

-- `_fail_closed`
unfoldable pub fail_closed : ModelReservation → BudgetLedger → GovernanceSnapshot × BudgetLedger
fail_closed reservation l =
    let (answer, l') = fail_model_call reservation l in
    elim answer [ ok governance ↦ (governance, l') | err e ↦ (l'.snapshot, l') ]

-- `_fail_closed`, with the trace of the call.
abbrev pub close : ModelReservation → ModelCallTrace → BudgetLedger → Closed
close reservation trace l =
    let (governance, l') = fail_closed reservation l in
    record { governance = governance; trace = trace; budget = l' }

-- The two traces of `_settle_or_fail`
abbrev pub result_trace :
    {T : Type 0}
    → StructuredModelRequest
    → StructuredModelResult T
    → CallOutcome
    → Option String
    → ℕ
    → ModelCallTrace
result_trace request result outcome safe_error cost = record {
  purpose = request.purpose;
  provider_model = safe_model result.provider_model;
  outcome = outcome;
  safe_error = safe_error;
  latency_ms = result.latency_ms;
  input_tokens = result.usage.input_tokens;
  output_tokens = result.usage.output_tokens;
  finish_reason = result.finish_reason;
  output_truncated = result.output_truncated;
  estimated_cost_cny = cost;
}

-- `_settle_or_fail`; `-` on natural numbers is the source's `max` with 0.
unfoldable pub settle_or_fail :
    {T : Type 0}
    → StructuredModelRequest
    → ModelReservation
    → StructuredModelResult T
    → BudgetLedger
    → Closed
settle_or_fail request reservation result l =
    let (settled, l') = settle_model_call reservation result.usage result.provider_model l in
    elim settled [
      | ok governance ↦ record {
        governance = governance;
        trace =
            result_trace request result completed none
              (governance.committed_cost_cny - l.snapshot.committed_cost_cny);
        budget = l';
      }
      | err e ↦
          close reservation
            (result_trace request result failed
              (some (model_error_value AgentModelErrorCategory.accounting_contract_failed))
              reservation.reserved_cost_cny)
            l'
    ]

-- `_error_trace`; the fields of an error are what the `_safe_` functions let pass. `model` is
-- `self._model.model`.
unfoldable pub error_trace :
    String
    → StructuredModelRequest
    → ModelReservation
    → AgentModelError
    → CallOutcome
    → ModelCallTrace
error_trace model request reservation error outcome = record {
  purpose = request.purpose;
  provider_model = safe_model (model_of error.provider_model model);
  outcome = outcome;
  safe_error = some (model_error_value error.category);
  latency_ms = error.latency_ms;
  input_tokens = error.input_tokens;
  output_tokens = error.output_tokens;
  finish_reason = error.finish_reason;
  output_truncated = is_length error.finish_reason;
  estimated_cost_cny = reservation.reserved_cost_cny;
}

-- The `try` of `_settle_model_error` and what follows it.
unfoldable pub settle_error_usage :
    ModelReservation → ModelCallTrace → String → BudgetLedger → Closed
settle_error_usage reservation trace provider_model l =
    let usage : ModelUsage = record {
      input_tokens = trace.input_tokens;
      output_tokens = trace.output_tokens;
    } in
    let (settled, l') = settle_model_call reservation usage provider_model l in
    elim settled [
      | ok governance ↦ record {
        governance = governance;
        trace = record trace {
          estimated_cost_cny = governance.committed_cost_cny - l.snapshot.committed_cost_cny;
        };
        budget = l';
      }
      | err e ↦ close reservation trace l'
    ]

-- `_settle_model_error`
unfoldable pub settle_model_error :
    String → StructuredModelRequest → ModelReservation → AgentModelError → BudgetLedger → Closed
unfolding error_trace settle_error_usage
settle_model_error model request reservation error l =
    let trace = error_trace model request reservation error failed in
    elim error.provider_model [
      | none ↦ close reservation trace l
      | some provider_model ↦
          if ltb 0 trace.input_tokens && ltb 0 trace.output_tokens
          then settle_error_usage reservation trace provider_model l
          else close reservation trace l
    ]

-- `_cancel` up to `_append`; `elapsed_ms` is the rounded time since the call began.
unfoldable pub cancel :
    String → StructuredModelRequest → ModelReservation → ℕ → BudgetLedger → Closed
cancel model request reservation elapsed_ms l =
    close reservation
      (record {
        purpose = request.purpose;
        provider_model = safe_model model;
        outcome = cancelled;
        safe_error = some (model_error_value AgentModelErrorCategory.cancelled);
        latency_ms = elapsed_ms;
        input_tokens = 0;
        output_tokens = 0;
        finish_reason = none;
        output_truncated = false;
        estimated_cost_cny = reservation.reserved_cost_cny;
      })
      l
