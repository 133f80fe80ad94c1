-- ===== src/Contracts/Reflexive.antt =====
-- The comparisons of the safe trace, of evidence and of the budget snapshot are reflexive.
use governed_analytics_agent.Common.{
  ◌≡◌, refl, String, Bool, true, false, Option, List, arith, str_eq, eq_iff, ◌==◌, ℕ, ◌*◌, ◌^◌,
}
use governed_analytics_agent.Contracts.Evidence.{EvidenceItem, same_flag}
use governed_analytics_agent.Contracts.Enums.{ActionType, AgentFinishReason}
use governed_analytics_agent.Contracts.Texts.{finish_reason_value, purpose_value}
use governed_analytics_agent.Contracts.Governance.{GovernanceSnapshot}
use governed_analytics_agent.Contracts.Json.{NumericValue}
use governed_analytics_agent.Contracts.Trace.{
  NodeTrace, ModelCallTrace, ToolCallTrace, SafeTrace, same_texts, same_text, same_value,
  same_items, same_node, same_model_call, same_tool_call, same_finish_reason, outcome_value,
  same_trace, same_number, same_evidence, same_governance, same_list_refl, same_option_refl,
  same_action, same_argument, same_dimension,
}
use governed_analytics_agent.Events.Values.{
  Value, Items, null, text, num, negative, flag, many, other, nil, cons,
}

pub str_eq_refl : (s : String) → str_eq s s ≡ true
str_eq_refl s = ground (arith, eq_iff s s)

same_flag_refl : (b : Bool) → same_flag b b ≡ true
same_flag_refl true = refl
same_flag_refl false = refl

pub same_texts_refl : (ss : List String) → same_texts ss ss ≡ true
same_texts_refl = same_list_refl (λ s t. str_eq s t) str_eq_refl

pub same_text_refl : (s : Option String) → same_text s s ≡ true
same_text_refl = same_option_refl (λ s t. str_eq s t) str_eq_refl

number_refl : (n : ℕ) → (n == n) ≡ true
number_refl n = ground arith

mutual
  unfolding same_value

  same_value_refl : (v : Value) → same_value v v ≡ true
  same_value_refl null = refl
  same_value_refl (text s) = str_eq_refl s
  same_value_refl (num n) = number_refl n
  same_value_refl (negative n) = number_refl n
  same_value_refl (flag b) = same_flag_refl b
  same_value_refl (many items) = same_items_refl items
  same_value_refl other = refl

  same_items_refl : (items : Items) → same_items items items ≡ true
  same_items_refl nil = refl
  same_items_refl (cons v items) =
      let head = same_value_refl v in let tail = same_items_refl items in ground arith

same_action_refl : (a : ActionType) → same_action a a ≡ true
same_action_refl a = ground arith

same_node_refl : (x : NodeTrace) → same_node x x ≡ true
unfolding same_node
same_node_refl x = ground (arith, str_eq_refl x.node, str_eq_refl x.outcome)

same_finish_reason_refl : (x : AgentFinishReason) → same_finish_reason x x ≡ true
unfolding same_finish_reason
same_finish_reason_refl x = str_eq_refl (finish_reason_value x)

same_model_call_refl : (x : ModelCallTrace) → same_model_call x x ≡ true
unfolding same_model_call
same_model_call_refl x = ground (
  arith,
  str_eq_refl (purpose_value x.purpose),
  str_eq_refl x.provider_model,
  str_eq_refl (outcome_value x.outcome),
  same_text_refl x.safe_error,
  same_option_refl (same_finish_reason) same_finish_reason_refl x.finish_reason,
  same_flag_refl x.output_truncated,
)

same_argument_refl : (x : String × Value) → same_argument x x ≡ true
same_argument_refl (s, v) =
    let name = str_eq_refl s in let value = same_value_refl v in ground arith

same_tool_call_refl : (x : ToolCallTrace) → same_tool_call x x ≡ true
unfolding same_tool_call
same_tool_call_refl x = ground (
  arith,
  same_action_refl x.tool_name,
  str_eq_refl x.purpose,
  same_list_refl same_argument same_argument_refl x.safe_arguments,
  same_text_refl x.query_id,
  same_texts_refl x.columns,
  same_option_refl (λ n m. n == m) number_refl x.row_count,
  same_flag_refl x.possibly_truncated,
  same_text_refl x.safe_error,
)

pub same_trace_refl : (x : SafeTrace) → same_trace x x ≡ true
unfolding same_trace
same_trace_refl x = ground (
  arith,
  same_list_refl (same_node) same_node_refl x.nodes,
  same_list_refl (same_model_call) same_model_call_refl x.model_calls,
  same_list_refl (same_tool_call) same_tool_call_refl x.tool_calls,
)

same_number_refl : (x : NumericValue) → same_number x x ≡ true
unfolding same_number
same_number_refl x =
    ground (arith, same_flag_refl x.negative, number_refl (x.digits * 10 ^ x.places))

same_dimension_refl : (d : String × String) → same_dimension d d ≡ true
same_dimension_refl (s, t) = let name = str_eq_refl s in let value = str_eq_refl t in ground arith

pub same_evidence_refl : (x : EvidenceItem) → same_evidence x x ≡ true
unfolding same_evidence
same_evidence_refl x = ground (
  arith,
  str_eq_refl x.evidence_id,
  str_eq_refl x.observation_id,
  str_eq_refl x.hypothesis_id,
  str_eq_refl x.contract_id,
  str_eq_refl x.query_id,
  str_eq_refl x.claim_key,
  same_list_refl same_dimension same_dimension_refl x.dimensions,
  same_option_refl (same_number) same_number_refl x.numeric_value,
  same_text_refl x.unit_name,
  same_flag_refl x.verified,
  same_texts_refl x.limitations,
)

pub same_governance_refl : (x : GovernanceSnapshot) → same_governance x x ≡ true
unfolding same_governance
same_governance_refl x = ground (arith, same_flag_refl x.soft_cap_reached)
