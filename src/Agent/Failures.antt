-- ===== src/Agent/Failures.antt =====
-- The mapping of failures to stop reasons in agent/nodes/behavior.py, and `_stop_reason` of
-- agent/modeling.py, which maps the same categories.
use governed_analytics_agent.Common.{
  ◌≡◌, ◌≢◌, String, Bool, true, false, Option, none, some, List, [], ◌∷◌, arith, if◌then◌else◌,
  Dict, lookup,
}
use governed_analytics_agent.Contracts.Enums.{AgentModelErrorCategory, StopReason}
use governed_analytics_agent.Contracts.Evidence.{RepairRecord}
use governed_analytics_agent.Contracts.Governance.{GovernanceSnapshot}
use governed_analytics_agent.Contracts.Trace.{ModelCallTrace}
use governed_analytics_agent.Invoker.Types.{StructuredInvocationError, stop_reason_of}

-- What `map_agent_failure` tells apart: `BudgetExceeded`, `SqlPolicyError`,
-- `StructuredInvocationError`, `AgentModelError`, and the rest.
pub data AgentFailure : Type 0 where
  budget_exceeded : StopReason → AgentFailure
  sql_policy : AgentFailure
  structured_invocation : StructuredInvocationError → AgentFailure
  agent_model : AgentModelErrorCategory → AgentFailure
  other_failure : AgentFailure

abbrev pub is_unavailable : AgentModelErrorCategory → Bool
is_unavailable AgentModelErrorCategory.provider_call_failed = true
is_unavailable AgentModelErrorCategory.provider_http_4xx = true
is_unavailable AgentModelErrorCategory.provider_rate_limited = true
is_unavailable AgentModelErrorCategory.provider_http_5xx = true
is_unavailable AgentModelErrorCategory.provider_timeout = true
is_unavailable AgentModelErrorCategory.provider_connection_error = true
is_unavailable AgentModelErrorCategory.missing_content = true
is_unavailable AgentModelErrorCategory.invalid_content_type = true
is_unavailable AgentModelErrorCategory.missing_usage = true
is_unavailable AgentModelErrorCategory.invalid_usage = true
is_unavailable AgentModelErrorCategory.missing_model = true
is_unavailable _ = false

abbrev pub is_malformed : AgentModelErrorCategory → Bool
is_malformed AgentModelErrorCategory.invalid_json = true
is_malformed AgentModelErrorCategory.invalid_structure = true
is_malformed AgentModelErrorCategory.schema_identity_mismatch = true
is_malformed _ = false

unfoldable pub map_agent_failure : AgentFailure → StopReason
map_agent_failure (budget_exceeded reason) = reason
map_agent_failure sql_policy = StopReason.sql_policy_rejected
map_agent_failure (structured_invocation error) = error.stop_reason
map_agent_failure (agent_model category) =
    if is_unavailable category
    then StopReason.model_unavailable
    else if is_malformed category
    then StopReason.structured_output_invalid
    else StopReason.internal_error
map_agent_failure other_failure = StopReason.internal_error

abbrev safe_errors : Dict StopReason
safe_errors =
    ("database_error", StopReason.database_error)
    ∷ ("sql_timeout", StopReason.sql_timeout)
    ∷ ("sensitive_output", StopReason.sensitive_result_blocked)
    ∷ ("malformed_sql", StopReason.sql_policy_rejected)
    ∷ ("read_only_policy", StopReason.sql_policy_rejected)
    ∷ ("forbidden_relation", StopReason.sql_policy_rejected)
    ∷ ("forbidden_function", StopReason.sql_policy_rejected)
    ∷ ("nondeterministic_query", StopReason.sql_policy_rejected)
    ∷ ("tool_not_allowed_in_node", StopReason.plan_invalid)
    ∷ ("output_shape_policy", StopReason.sql_policy_rejected)
    ∷ ("invalid_request", StopReason.plan_invalid)
    ∷ ("not_found", StopReason.plan_invalid)
    ∷ []

abbrev or_empty : Option String → String
or_empty none = ""
or_empty (some s) = s

abbrev or_internal : Option StopReason → StopReason
or_internal none = StopReason.internal_error
or_internal (some reason) = reason

unfoldable pub safe_error_stop_reason : Option String → StopReason
safe_error_stop_reason safe_error = or_internal (lookup (or_empty safe_error) safe_errors)

-- What `failure_delta` sets in the state.
pub record FailureDelta : Type 0 where
  pub stop_reason : StopReason
  pub governance : GovernanceSnapshot
  pub model_call_traces : List ModelCallTrace
  pub repair_history : List RepairRecord

abbrev records_of : Option RepairRecord → List RepairRecord
records_of none = []
records_of (some r) = r ∷ []

-- `failure_delta`; `current` is `context.budget.snapshot`. A delta's absent list adds nothing to the
-- state, like an empty one.
unfoldable pub failure_delta : AgentFailure → GovernanceSnapshot → FailureDelta
unfolding map_agent_failure
failure_delta (structured_invocation error) current = record {
  stop_reason = error.stop_reason;
  governance = error.governance;
  model_call_traces = error.traces;
  repair_history = records_of error.repair_record;
}
failure_delta failure current = record {
  stop_reason = map_agent_failure failure;
  governance = current;
  model_call_traces = [];
  repair_history = [];
}

-- The two mappings of a model error to a stop reason agree on every category but `repair_failed`,
-- which only the invoker knows.
pub stop_reasons_agree :
    (category : AgentModelErrorCategory)
    → category ≢ AgentModelErrorCategory.repair_failed
    → map_agent_failure (agent_model category) ≡ stop_reason_of category
unfolding map_agent_failure stop_reason_of
stop_reasons_agree category h = ground arith
