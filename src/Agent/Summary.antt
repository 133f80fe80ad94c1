-- ===== src/Agent/Summary.antt =====
-- The verified evidence as the JSON object of an answer: `_result_summary` of
-- agent/nodes/synthesis.py.
pub mod Safe
use governed_analytics_agent.Common.{String, Option, none, some, List, [], ◌∷◌}
use governed_analytics_agent.Agent.Assessment.{verified_of}
use governed_analytics_agent.Agent.State.{AgentState}
use governed_analytics_agent.Contracts.Evidence.{EvidenceItem}
use governed_analytics_agent.Contracts.Json.{
  Json, Elements, Members, NumericValue, null, text, array, object, nil, cons, empty, entry,
}

abbrev pub nullable : Option String → Json
nullable none = null
nullable (some s) = text s

abbrev pub dimension_items : List (String × String) → Elements
dimension_items [] = nil
dimension_items ((name, value) ∷ rest) =
    cons (object (entry "name" (text name) (entry "value" (text value) empty)))
      (dimension_items rest)

-- `decimal_text` is `str` of a decimal.
module _ (decimal_text : NumericValue → String) where
  abbrev numeric_text : Option NumericValue → Option String
  numeric_text none = none
  numeric_text (some n) = some (decimal_text n)

  unfoldable pub summary_items : List EvidenceItem → Elements
  summary_items [] = nil
  summary_items (e ∷ es) =
      cons
        (object (
          entry "evidence_id" (text e.evidence_id) (
            entry "claim_key" (text e.claim_key) (
              entry "numeric_value" (nullable (numeric_text e.numeric_value)) (
                entry "unit" (nullable e.unit_name)
                  (entry "dimensions" (array (dimension_items e.dimensions)) empty))))))
        (summary_items es)

  -- `_result_summary`
  unfoldable pub result_summary : AgentState → Members
  result_summary s = entry "evidence" (array (summary_items (verified_of s.evidence))) empty
