-- ===== src/Contracts/Trace.antt =====
-- The safe trace of agent/contracts.py and the comparison of its parts, of evidence and of the
-- budget snapshot by `==`. A safe argument is a dynamic value: the allowlist admits no mapping.
use governed_analytics_agent.Common.{
  ℕ, ◌*◌, ◌^◌, ◌≡◌, refl, String, Bool, true, false, ◌&&◌, ◌||◌, Option, none, some, List, [], ◌∷◌,
  ◌==◌, str_eq, arith, is_none,
}
use governed_analytics_agent.Contracts.Enums.{ActionType, AgentFinishReason, ModelPurpose}
use governed_analytics_agent.Contracts.Texts.{finish_reason_value, purpose_value}
use governed_analytics_agent.Contracts.Evidence.{EvidenceItem, Stance, supports, refutes, same_flag}
use governed_analytics_agent.Contracts.Governance.{GovernanceSnapshot}
use governed_analytics_agent.Contracts.Json.{NumericValue}
use governed_analytics_agent.Events.Identifiers.{codes, matches_identifier}
use governed_analytics_agent.Events.Values.{
  Value, Items, null, text, num, negative, flag, many, other, nil, cons,
}

pub record NodeTrace : Type 0 where
  pub node : String
  pub duration_ms : ℕ
  pub outcome : String

-- The outcome of a model call, a `Literal`.
pub data CallOutcome : Type 0 where
  completed failed cancelled : CallOutcome

pub record ModelCallTrace : Type 0 where
  pub purpose : ModelPurpose
  pub provider_model : String
  pub outcome : CallOutcome
  pub safe_error : Option String
  pub latency_ms : ℕ
  pub input_tokens : ℕ
  pub output_tokens : ℕ
  pub finish_reason : Option AgentFinishReason
  pub output_truncated : Bool
  pub estimated_cost_cny : ℕ

abbrev pub is_completed : CallOutcome → Bool
is_completed completed = true
is_completed _ = false

-- `finish_reason is AgentFinishReason.LENGTH`
abbrev pub is_length : Option AgentFinishReason → Bool
is_length (some AgentFinishReason.length) = true
is_length _ = false

-- `_validate_trace` of `ModelCallTrace`, and the pattern of `provider_model`
unfoldable pub validate_model_call : ModelCallTrace → Bool
validate_model_call t =
    matches_identifier (codes t.provider_model)
    && same_flag (is_completed t.outcome) (is_none t.safe_error)
    && same_flag t.output_truncated (is_length t.finish_reason)

pub record ToolCallTrace : Type 0 where
  pub tool_name : ActionType
  pub purpose : String
  pub safe_arguments : List (String × Value)
  pub query_id : Option String
  pub columns : List String
  pub row_count : Option ℕ
  pub possibly_truncated : Bool
  pub safe_error : Option String

pub record SafeTrace : Type 0 where
  pub nodes : List NodeTrace
  pub model_calls : List ModelCallTrace
  pub tool_calls : List ToolCallTrace

abbrev pub empty_trace : SafeTrace
empty_trace = record { nodes = []; model_calls = []; tool_calls = [] }

-- `==` on sequences, on optional values and on pairs, from that on the parts.
module _ {A : Type 0} where
  abbrev pub same_list : (A → A → Bool) → List A → List A → Bool
  same_list same [] [] = true
  same_list same (x ∷ xs) (y ∷ ys) = same x y && same_list same xs ys
  same_list same _ _ = false

  abbrev pub same_option : (A → A → Bool) → Option A → Option A → Bool
  same_option same none none = true
  same_option same (some x) (some y) = same x y
  same_option same _ _ = false

  pub same_list_refl :
      (same : A → A → Bool)
      → ((x : A) → same x x ≡ true)
      → (xs : List A) → same_list same xs xs ≡ true
  same_list_refl same h [] = refl
  same_list_refl same h (x ∷ xs) =
      let head = h x in let tail = same_list_refl same h xs in ground arith

  pub same_option_refl :
      (same : A → A → Bool)
      → ((x : A) → same x x ≡ true)
      → (o : Option A) → same_option same o o ≡ true
  same_option_refl same h none = refl
  same_option_refl same h (some x) = h x

abbrev pub same_texts : List String → List String → Bool
same_texts = same_list str_eq

abbrev pub same_text : Option String → Option String → Bool
same_text = same_option str_eq

abbrev number_of : Bool → ℕ
number_of true = 1
number_of false = 0

-- `==` on dynamic values, where `True == 1`.
unfoldable mutual
  pub same_value : Value → Value → Bool
  same_value null null = true
  same_value (text s) (text t) = str_eq s t
  same_value (num n) (num m) = n == m
  same_value (negative n) (negative m) = n == m
  same_value (flag b) (flag c) = same_flag b c
  same_value (flag b) (num n) = number_of b == n
  same_value (num n) (flag b) = number_of b == n
  same_value (many items) (many others) = same_items items others
  same_value other other = true
  same_value _ _ = false

  pub same_items : Items → Items → Bool
  same_items nil nil = true
  same_items (cons v items) (cons w others) = same_value v w && same_items items others
  same_items _ _ = false

abbrev pub same_action : ActionType → ActionType → Bool
same_action ActionType.metric_lookup ActionType.metric_lookup = true
same_action ActionType.schema_lookup ActionType.schema_lookup = true
same_action ActionType.profile ActionType.profile = true
same_action ActionType.execute_sql ActionType.execute_sql = true
same_action _ _ = false

unfoldable pub same_node : NodeTrace → NodeTrace → Bool
same_node x y =
    str_eq x.node y.node && (x.duration_ms == y.duration_ms) && str_eq x.outcome y.outcome

abbrev pub outcome_value : CallOutcome → String
outcome_value completed = "completed"
outcome_value failed = "failed"
outcome_value cancelled = "cancelled"

unfoldable pub same_finish_reason : AgentFinishReason → AgentFinishReason → Bool
same_finish_reason x y = str_eq (finish_reason_value x) (finish_reason_value y)

unfoldable pub same_model_call : ModelCallTrace → ModelCallTrace → Bool
same_model_call x y =
    str_eq (purpose_value x.purpose) (purpose_value y.purpose)
    && str_eq x.provider_model y.provider_model
    && str_eq (outcome_value x.outcome) (outcome_value y.outcome)
    && same_text x.safe_error y.safe_error
    && (x.latency_ms == y.latency_ms)
    && (x.input_tokens == y.input_tokens)
    && (x.output_tokens == y.output_tokens)
    && same_option same_finish_reason x.finish_reason y.finish_reason
    && same_flag x.output_truncated y.output_truncated
    && (x.estimated_cost_cny == y.estimated_cost_cny)

abbrev pub same_argument : String × Value → String × Value → Bool
same_argument (s, v) (t, w) = str_eq s t && same_value v w

unfoldable pub same_tool_call : ToolCallTrace → ToolCallTrace → Bool
same_tool_call x y =
    same_action x.tool_name y.tool_name
    && str_eq x.purpose y.purpose
    && same_list same_argument x.safe_arguments y.safe_arguments
    && same_text x.query_id y.query_id
    && same_texts x.columns y.columns
    && same_option (λ n m. n == m) x.row_count y.row_count
    && same_flag x.possibly_truncated y.possibly_truncated
    && same_text x.safe_error y.safe_error

unfoldable pub same_trace : SafeTrace → SafeTrace → Bool
same_trace x y =
    same_list same_node x.nodes y.nodes
    && same_list same_model_call x.model_calls y.model_calls
    && same_list same_tool_call x.tool_calls y.tool_calls

-- Decimals are compared as numbers.
unfoldable pub same_number : NumericValue → NumericValue → Bool
same_number x y =
    (x.digits * 10 ^ y.places == y.digits * 10 ^ x.places)
    && (same_flag x.negative y.negative || (x.digits == 0))

abbrev pub same_stance : Stance → Stance → Bool
same_stance supports s = elim s [ supports ↦ true | refutes ↦ false ]
same_stance refutes s = elim s [ supports ↦ false | refutes ↦ true ]

abbrev pub same_dimension : String × String → String × String → Bool
same_dimension (s, v) (t, w) = str_eq s t && str_eq v w

unfoldable pub same_evidence : EvidenceItem → EvidenceItem → Bool
same_evidence x y =
    str_eq x.evidence_id y.evidence_id
    && str_eq x.observation_id y.observation_id
    && str_eq x.hypothesis_id y.hypothesis_id
    && str_eq x.contract_id y.contract_id
    && str_eq x.query_id y.query_id
    && str_eq x.claim_key y.claim_key
    && same_list same_dimension x.dimensions y.dimensions
    && same_stance x.stance y.stance
    && same_option same_number x.numeric_value y.numeric_value
    && same_text x.unit_name y.unit_name
    && same_flag x.verified y.verified
    && same_texts x.limitations y.limitations

unfoldable pub same_governance : GovernanceSnapshot → GovernanceSnapshot → Bool
same_governance x y =
    (x.action_loops == y.action_loops)
    && (x.llm_calls == y.llm_calls)
    && (x.tool_calls == y.tool_calls)
    && (x.execute_calls == y.execute_calls)
    && (x.profile_calls == y.profile_calls)
    && (x.repair_count == y.repair_count)
    && (x.structured_output_repair_count == y.structured_output_repair_count)
    && (x.input_tokens == y.input_tokens)
    && (x.output_tokens == y.output_tokens)
    && (x.committed_cost_cny == y.committed_cost_cny)
    && (x.reserved_cost_cny == y.reserved_cost_cny)
    && same_flag x.soft_cap_reached y.soft_cap_reached
    && (x.deadline_monotonic == y.deadline_monotonic)
