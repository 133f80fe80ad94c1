-- ===== src/Contracts/Request.antt =====
-- `StructuredModelRequest` of agent/contracts.py, its validator and `for_repair`, and
-- `StructuredModelResult`. The size of a prompt in bytes is a parameter where the budget needs it.
pub mod Repair
use governed_analytics_agent.Common.{
  ℕ, String, Bool, false, not, ◌&&◌, ◌||◌, Option, none, some, List, [], ◌∷◌, ltb, leb, ◌==◌,
  if◌then◌else◌, length, any_of, str_eq,
}
use Prim.Native.String.{◌++◌ as append}
use governed_analytics_agent.Contracts.Enums.{
  AgentFinishReason, AgentModelErrorCategory, ModelPurpose,
}
use governed_analytics_agent.Contracts.Governance.{ModelUsage}
use governed_analytics_agent.Contracts.Json.{
  Json, Members, empty, entry, text, object, is_evaluation_only_key, members_have_forbidden_key,
}
use governed_analytics_agent.Contracts.Texts.{model_error_value}
use governed_analytics_agent.Contracts.Trace.{is_length}
use governed_analytics_agent.Contracts.Evidence.{same_flag}
use governed_analytics_agent.Events.Identifiers.{codes, matches_identifier}
use governed_analytics_agent.Events.Vocabulary.{member}

pub record StructuredModelRequest : Type 0 where
  pub purpose : ModelPurpose
  pub system_prompt : String
  pub user_payload : Members
  pub output_schema_name : String
  pub output_schema_summary : Members
  pub max_output_tokens : ℕ

-- `str.isspace` of a code point
abbrev pub is_space : ℕ → Bool
is_space c =
    (leb 9 c && leb c 13)
    || (leb 28 c && leb c 32)
    || c == 133
    || c == 160
    || c == 5760
    || (leb 8192 c && leb c 8202)
    || c == 8232
    || c == 8233
    || c == 8239
    || c == 8287
    || c == 12288

-- `_require_nonblank`: whether it returns.
unfoldable pub require_nonblank : String → Bool
require_nonblank s = any_of (λ c. not (is_space c)) (codes s)

-- `NonBlankText`, whose length is at most 4096
unfoldable pub is_nonblank_text : String → Bool
is_nonblank_text s = leb 1 (length (codes s)) && leb (length (codes s)) 4096

-- `mapping.get(key)`
unfoldable pub get_member : String → Members → Option Json
get_member key empty = none
get_member key (entry k v members) = if str_eq k key then some v else get_member key members

abbrev is_text : String → Option Json → Bool
is_text s (some (text t)) = str_eq t s
is_text s _ = false

-- The fields' checks and `_validate_safe_payload_and_schema`
unfoldable pub validate_request : StructuredModelRequest → Bool
unfolding require_nonblank is_nonblank_text get_member
validate_request q =
    is_nonblank_text q.system_prompt
    && require_nonblank q.system_prompt
    && matches_identifier (codes q.output_schema_name)
    && ltb 0 q.max_output_tokens
    && not (members_have_forbidden_key (is_evaluation_only_key) q.user_payload)
    && is_text q.output_schema_name (get_member "title" q.output_schema_summary)

abbrev pub context_keys : List String
context_keys =
    "query" ∷ "current_time_utc" ∷ "metrics" ∷ "tables" ∷ "planning_contract" ∷ "plan"
    ∷ "attribution_windows" ∷ "attribution_sql_rules" ∷ "target_hypothesis_id"
    ∷ "execute_arguments_schema" ∷ "contracts" ∷ "profile_observations" ∷ "evidence"
    ∷ "evidence_gaps" ∷ []

-- `{key: value for key, value in payload.items() if key in context_keys}`
unfoldable pub keep_context : Members → Members
keep_context empty = empty
keep_context (entry key v members) =
    if member key context_keys then entry key v (keep_context members) else keep_context members

abbrev pub repair_instruction : String
repair_instruction = "\nReturn exactly one JSON object that conforms to the bound output schema."

unfoldable pub repair_payload : AgentModelErrorCategory → StructuredModelRequest → Members
unfolding keep_context
repair_payload failure_category q =
    entry "original_request" (object (keep_context q.user_payload)) (
      entry "failure_category" (text (model_error_value failure_category)) (
        entry "output_schema_name" (text q.output_schema_name) (
          entry "re_output_instruction"
            (text "Re-output the complete answer as schema-valid JSON only.") empty)))

-- The request that `for_repair` builds, before its validation.
unfoldable pub repair_request_of :
    AgentModelErrorCategory → StructuredModelRequest → StructuredModelRequest
unfolding repair_payload
repair_request_of failure_category q = record {
  purpose = ModelPurpose.repair;
  system_prompt = append q.system_prompt repair_instruction;
  user_payload = repair_payload failure_category q;
  output_schema_name = q.output_schema_name;
  output_schema_summary = q.output_schema_summary;
  max_output_tokens = q.max_output_tokens;
}

-- `for_repair`; `none` is the `ValidationError` of the new request.
unfoldable pub for_repair :
    AgentModelErrorCategory → StructuredModelRequest → Option StructuredModelRequest
unfolding repair_request_of
for_repair failure_category q =
    let repaired = repair_request_of failure_category q in
    if validate_request repaired then some repaired else none

pub record StructuredModelResult (T : Type 0) : Type 0 where
  pub output : T
  pub provider_model : String
  pub usage : ModelUsage
  pub latency_ms : ℕ
  pub finish_reason : Option AgentFinishReason
  pub output_truncated : Bool

-- `_validate_finish`, and the pattern of `provider_model`
unfoldable pub validate_result : {T : Type 0} → StructuredModelResult T → Bool
validate_result r =
    matches_identifier (codes r.provider_model)
    && same_flag r.output_truncated (is_length r.finish_reason)
