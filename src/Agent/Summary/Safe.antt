-- ===== src/Agent/Summary/Safe.antt =====
-- The summary of an answer has no key that `FinalAnswer` forbids.
use governed_analytics_agent.Common.{
  ◌≡◌, refl, String, true, false, not, some, List, [], ◌∷◌, all_of, arith,
}
use governed_analytics_agent.Agent.Assessment.{verified_of}
use governed_analytics_agent.Agent.State.{AgentState}
use governed_analytics_agent.Agent.Summary.{summary_items, result_summary, dimension_items}
use governed_analytics_agent.Contracts.Answer.{is_unsafe_summary}
use governed_analytics_agent.Contracts.Evidence.{EvidenceItem}
use governed_analytics_agent.Contracts.Json.{
  NumericValue, json_has_forbidden_key, elements_have_forbidden_key, is_final_summary_forbidden_key,
  is_evaluation_only_key, one_of, key_tokens, snake_case, lower, tokens_of, same_codes,
}
use governed_analytics_agent.Events.Identifiers.{is_digit, is_lower, is_upper, is_alphanumeric}

abbrev summary_keys : List String
summary_keys =
    "evidence" ∷ "evidence_id" ∷ "claim_key" ∷ "numeric_value" ∷ "unit" ∷ "dimensions" ∷ "name"
    ∷ "value" ∷ []

summary_keys_safe : all_of (λ k. not (is_final_summary_forbidden_key k)) summary_keys ≡ true
unfolding is_final_summary_forbidden_key is_evaluation_only_key one_of key_tokens snake_case lower
    tokens_of same_codes is_digit is_lower is_upper is_alphanumeric
summary_keys_safe = refl

dimension_items_safe :
    (ds : List (String × String))
    → elements_have_forbidden_key is_final_summary_forbidden_key (dimension_items ds) ≡ false
unfolding json_has_forbidden_key
dimension_items_safe [] = refl
dimension_items_safe ((name, value) ∷ ds) =
    ground (arith, summary_keys_safe, dimension_items_safe ds)

module _ (decimal_text : NumericValue → String) where
  summary_items_safe :
      (es : List EvidenceItem)
      → elements_have_forbidden_key is_final_summary_forbidden_key (summary_items decimal_text es)
        ≡ false
  unfolding summary_items json_has_forbidden_key
  summary_items_safe [] = refl
  summary_items_safe (e ∷ es) =
      ground (arith, summary_keys_safe, dimension_items_safe e.dimensions, summary_items_safe es)

  pub result_summary_safe :
      (s : AgentState) → is_unsafe_summary (some (result_summary decimal_text s)) ≡ false
  unfolding result_summary json_has_forbidden_key
  result_summary_safe s =
      ground (arith, summary_keys_safe, summary_items_safe (verified_of s.evidence))
