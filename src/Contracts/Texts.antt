-- ===== src/Contracts/Texts.antt =====
-- The texts of the enumerations of a model call, of agent/contracts.py.
use governed_analytics_agent.Common.{String}
use governed_analytics_agent.Contracts.Enums.{
  AgentFinishReason, ModelPurpose, AgentModelErrorCategory,
}

-- The texts of `AgentFinishReason`.
unfoldable pub finish_reason_value : AgentFinishReason → String
finish_reason_value AgentFinishReason.stop = "stop"
finish_reason_value AgentFinishReason.length = "length"
finish_reason_value AgentFinishReason.content_filter = "content_filter"
finish_reason_value AgentFinishReason.tool_calls = "tool_calls"
finish_reason_value AgentFinishReason.other = "other"
finish_reason_value AgentFinishReason.unknown = "unknown"

-- The texts of `ModelPurpose`.
unfoldable pub purpose_value : ModelPurpose → String
purpose_value ModelPurpose.behavior = "behavior"
purpose_value ModelPurpose.plan = "plan"
purpose_value ModelPurpose.action = "action"
purpose_value ModelPurpose.synthesis = "synthesis"
purpose_value ModelPurpose.repair = "repair"

-- The texts of `AgentModelErrorCategory`.
unfoldable pub model_error_value : AgentModelErrorCategory → String
model_error_value AgentModelErrorCategory.invalid_request = "invalid_request"
model_error_value AgentModelErrorCategory.schema_identity_mismatch = "schema_identity_mismatch"
model_error_value AgentModelErrorCategory.provider_call_failed = "provider_call_failed"
model_error_value AgentModelErrorCategory.provider_http_4xx = "provider_http_4xx"
model_error_value AgentModelErrorCategory.provider_rate_limited = "provider_rate_limited"
model_error_value AgentModelErrorCategory.provider_http_5xx = "provider_http_5xx"
model_error_value AgentModelErrorCategory.provider_timeout = "provider_timeout"
model_error_value AgentModelErrorCategory.provider_connection_error = "provider_connection_error"
model_error_value AgentModelErrorCategory.missing_content = "missing_content"
model_error_value AgentModelErrorCategory.invalid_content_type = "invalid_content_type"
model_error_value AgentModelErrorCategory.invalid_json = "invalid_json"
model_error_value AgentModelErrorCategory.invalid_structure = "invalid_structure"
model_error_value AgentModelErrorCategory.missing_usage = "missing_usage"
model_error_value AgentModelErrorCategory.invalid_usage = "invalid_usage"
model_error_value AgentModelErrorCategory.missing_model = "missing_model"
model_error_value AgentModelErrorCategory.fixture_script_mismatch = "fixture_script_mismatch"
model_error_value AgentModelErrorCategory.budget_exceeded = "budget_exceeded"
model_error_value AgentModelErrorCategory.budget_reservation_failed = "budget_reservation_failed"
model_error_value AgentModelErrorCategory.repair_blocked = "repair_blocked"
model_error_value AgentModelErrorCategory.repair_failed = "repair_failed"
model_error_value AgentModelErrorCategory.accounting_contract_failed = "accounting_contract_failed"
model_error_value AgentModelErrorCategory.cancelled = "cancelled"
